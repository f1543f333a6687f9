-- ===== src/Tests/Keys.antt =====
-- Keys of concrete files.
use audio_streaming_service.Common.{
  ◌≡◌, refl, arith, Bytes, codes, bytes_eq, ok, inl, inr, ◌↔◌, true,
}
use audio_streaming_service.Handlers.Upload.{is_supported_audio}
use audio_streaming_service.Handlers.Upload.Checks.{IsSupported, is_supported_audio_iff}
use audio_streaming_service.Std.Path.{clean, path_join, ext}
use audio_streaming_service.Std.Strings.{trim_space, trim_prefix, contains, to_lower, is_one_of}
use audio_streaming_service.Storage.{sent_key}
use audio_streaming_service.TrackStorage.Keys.{
  original_key, normalize_segment, rooted, validate_key,
}
use audio_streaming_service.TrackStorage.Keys.KeyChecks.{
  validate_key-layout, validate_key_of_parent,
}
use audio_streaming_service.TrackStorage.Keys.OriginalKeys.{layout, IsOriginalKey, original_key_iff}
use audio_streaming_service.TrackStorage.Keys.Segments.{IsSegment, normalize_segment_iff}

abbrev track_id : Bytes
track_id = codes "../Track_7"

abbrev segment : Bytes
segment = codes "Track_7"

abbrev song : Bytes
song = codes "My Song.FLAC "

segment-IsSegment : IsSegment segment
segment-IsSegment = (cc, cc, cc, omega arith)

original_key_test : original_key track_id song ≡ ok (codes "raw/Track_7/original.flac")
unfolding original_key trim_space trim_prefix contains to_lower is_one_of clean path_join ext
original_key_test = refl

normalize_segment_test : normalize_segment track_id ≡ ok segment
unfolding normalize_segment trim_space trim_prefix contains clean bytes_eq
normalize_segment_test = refl

original_key_iff_example :
    (original_key track_id song ≡ ok (codes "raw/Track_7/original.flac"))
    ↔ IsOriginalKey track_id song (codes "raw/Track_7/original.flac")
original_key_iff_example = original_key_iff track_id song (codes "raw/Track_7/original.flac")

normalize_segment_iff_example :
    (normalize_segment track_id ≡ ok segment)
    ↔ ((rooted (trim_space track_id) ≡ segment) × IsSegment segment)
normalize_segment_iff_example = normalize_segment_iff track_id segment

validate_key-layout_example : validate_key (layout segment (codes ".flac")) ≡ ok tt
validate_key-layout_example =
    validate_key-layout segment (codes ".flac") segment-IsSegment (inr (inl refl))

is_supported_audio_iff_example : (is_supported_audio song ≡ true) ↔ IsSupported song
is_supported_audio_iff_example = is_supported_audio_iff song

validate_key_of_parent_example :
    (validate_key (codes "../Track_7") ≡ ok tt)
    × (sent_key (codes "../Track_7") ≡ codes "../Track_7")
validate_key_of_parent_example = validate_key_of_parent segment segment-IsSegment
