-- ===== src/TrackStorage/Keys.antt =====
-- The functions of track_storage.go that build and check keys.
pub mod KeyChecks
pub mod OriginalKeys
pub mod Segments
use audio_streaming_service.Common.{
  ℕ, ◌≡◌, refl, Bool, true, false, ◌&&◌, ◌||◌, List, [], ◌∷◌, ◌++◌, ◌==◌, leb, if◌then◌else◌, Bytes,
  codes, bytes_eq, Result, ok, err, invalid_segment, invalid_filename, unsupported_extension,
  invalid_key, ◌>>=◌, ◌>>◌,
}
use audio_streaming_service.Std.Path.{clean, path_join, ext}
use audio_streaming_service.Std.Strings.{trim_space, trim_prefix, contains, to_lower, is_one_of}

abbrev pub is_allowed : ℕ → Bool
is_allowed c =
    (leb b'a' c && leb c b'z')
    || (leb b'A' c && leb c b'Z')
    || (leb b'0' c && leb c b'9')
    || c == b'.'
    || c == b'_'
    || c == b'-'

abbrev all_allowed : Bytes → Bool
all_allowed [] = true
all_allowed (c ∷ s) = is_allowed c && all_allowed s

-- `allowedSegment`, the regular expression ^[a-zA-Z0-9._-]+$
abbrev pub matches_allowed : Bytes → Bool
matches_allowed [] = false
matches_allowed (c ∷ s) = is_allowed c && all_allowed s

-- `strings.TrimPrefix(path.Clean("/"+s), "/")`
abbrev pub rooted : Bytes → Bytes
rooted s = trim_prefix (clean (b'/' ∷ s)) (codes "/")

abbrev pub checked_segment : Bytes → Result Bytes
checked_segment value =
    if bytes_eq value [] || bytes_eq value (codes ".") || contains value (codes "/")
    then err invalid_segment
    else if matches_allowed value
    then ok value
    else err invalid_segment

unfoldable pub normalize_segment : Bytes → Result Bytes
normalize_segment value = checked_segment (rooted (trim_space value))

abbrev pub audio_extensions : List Bytes
audio_extensions =
    codes ".mp3" ∷ codes ".flac" ∷ codes ".wav" ∷ codes ".aac" ∷ codes ".m4a" ∷ codes ".ogg" ∷ []

unfoldable pub validate_audio_extension : Bytes → Result (Unit {0})
validate_audio_extension e =
    if is_one_of e audio_extensions then ok tt else err unsupported_extension

abbrev pub or_bin : Bytes → Bytes
or_bin e = if bytes_eq e [] then codes ".bin" else e

abbrev pub key_with : Bytes → Bytes → Result Bytes
key_with track_id e = do
  validate_audio_extension e
  ok (path_join (codes "raw" ∷ track_id ∷ (codes "original" ++ e) ∷ []))

abbrev pub key_of : Bytes → Bytes → Result Bytes
key_of track_id name =
    if bytes_eq name []
    then err invalid_filename
    else key_with track_id (or_bin (to_lower (ext name)))

-- `OriginalKey`
unfoldable pub original_key : Bytes → Bytes → Result Bytes
unfolding normalize_segment validate_audio_extension
original_key track_id original_filename = do
  segment ← normalize_segment track_id
  key_of segment (trim_space original_filename)

abbrev pub checked_key : Bytes → Result (Unit {0})
checked_key key = if bytes_eq key [] || bytes_eq key (codes ".") then err invalid_key else ok tt

unfoldable pub validate_key : Bytes → Result (Unit {0})
validate_key key = checked_key (trim_space (rooted key))

original_key_test :
    original_key (codes " a/../Track_1 ") (codes "My Song.MP3 ")
    ≡ ok (codes "raw/Track_1/original.mp3")
unfolding original_key trim_space trim_prefix contains to_lower is_one_of clean path_join ext
original_key_test = refl

validate_key_test : validate_key (codes "/.././") ≡ err invalid_key
unfolding validate_key trim_space trim_prefix clean bytes_eq
validate_key_test = refl
