-- ===== src/TrackStorage/Keys/OriginalKeys.antt =====
-- What `OriginalKey` and `validateKey` return.
use audio_streaming_service.Common.{
  ℕ, ◌<◌, ◌≡◌, ◌≢◌, refl, sym, ap, ◌∙◌, ◌↔◌, List, [], ◌∷◌, ◌++◌, arith, All, All-map, All-append,
  Bytes, codes, bytes_eq, bytes_eq_iff, inl, inr, ok, Bool-cases, >>=-eq-ok,
}
use mathlib.Core.Path.{subst}
use audio_streaming_service.Std.Hex.{IsHexDigit, encode_to_string, encode_to_string-All}
use audio_streaming_service.Std.Path.{path_join, ext, join}
use audio_streaming_service.Std.Path.Elements.{NoSlash, IsElement}
use audio_streaming_service.Std.Path.Clean.{clean_relative}
use audio_streaming_service.Std.Strings.{trim_space, to_lower}
use audio_streaming_service.Std.Strings.Laws.{IsOneOf, is_one_of_iff}
use audio_streaming_service.TrackStorage.Keys.{
  audio_extensions, or_bin, key_with, key_of, normalize_segment, validate_audio_extension,
  original_key,
}
use audio_streaming_service.TrackStorage.Keys.Segments.{
  IsAllowed, IsSegment, IsSegment-IsElement, normalize_segment_of_IsSegment,
  normalize_segment-IsSegment,
}

-- raw/{segment}/original{e}
abbrev pub layout : Bytes → Bytes → Bytes
layout segment e = codes "raw/" ++ (segment ++ (codes "/original" ++ e))

pub IsOneOf-All : (P : Bytes → Type 0) (s : Bytes) (ts : List Bytes) → All P ts → IsOneOf s ts → P s
IsOneOf-All P s [] _ h = absurd h
IsOneOf-All P s (t ∷ ts) (p, ps) (inl e) = rw e p
IsOneOf-All P s (t ∷ ts) (p, ps) (inr h) = IsOneOf-All P s ts ps h

pub extension-NoSlash : (e : Bytes) → IsOneOf e audio_extensions → NoSlash e
extension-NoSlash e h = IsOneOf-All NoSlash e audio_extensions (omega arith) h

pub file-IsElement : (e : Bytes) → NoSlash e → IsElement (codes "original" ++ e)
file-IsElement e h = ((cc, cc, cc), All-append (λ c. c ≢ b'/') (codes "original") e (omega arith) h)

pub path_join-layout :
    (segment e : Bytes)
    → IsElement segment
    → NoSlash e
    → path_join (codes "raw" ∷ segment ∷ (codes "original" ++ e) ∷ []) ≡ layout segment e
unfolding path_join join
path_join-layout segment e h n =
    clean_relative b'r' (codes "aw") (segment ∷ (codes "original" ++ e) ∷ [])
      (((cc, cc, cc), omega arith), (h, (file-IsElement e n, tt)))

abbrev pub extension_of : Bytes → Bytes
extension_of filename = to_lower (ext (trim_space filename))

validate_iff : (e : Bytes) → (validate_audio_extension e ≡ ok tt) ↔ IsOneOf e audio_extensions
unfolding validate_audio_extension
validate_iff e = (
  λ h. (is_one_of_iff e audio_extensions).0 (ground arith),
  λ h. rw ((is_one_of_iff e audio_extensions).1 h) refl,
)

key_with_valid :
    (segment e : Bytes)
    → IsSegment segment
    → IsOneOf e audio_extensions
    → key_with segment e ≡ ok (layout segment e)
key_with_valid segment e s h =
    rw ((validate_iff e).1 h)
      (ap ok (path_join-layout segment e (IsSegment-IsElement segment s) (extension-NoSlash e h)))

key_with_inversion :
    (segment e key : Bytes)
    → IsSegment segment
    → key_with segment e ≡ ok key
    → IsOneOf e audio_extensions × (key ≡ layout segment e)
key_with_inversion segment e key s done =
    let (u, valid, same) = >>=-eq-ok (validate_audio_extension e) _ done in
    let h = (validate_iff e).0 valid in
    (h, cc (path_join-layout segment e (IsSegment-IsElement segment s) (extension-NoSlash e h)))

-- `.bin` stands for a name without an extension, and is refused.
or_bin-IsOneOf : (e : Bytes) → IsOneOf (or_bin e) audio_extensions → or_bin e ≡ e
unfolding bytes_eq
or_bin-IsOneOf [] h = ground arith
or_bin-IsOneOf (c ∷ s) h = refl

-- An accepted original goes to raw/{segment}/original{extension}, where the segment is the
-- normalised track id, and the extension is the file's own in lower case and one of the six.
pub original_key-layout :
    (track_id filename key : Bytes)
    → original_key track_id filename ≡ ok key
    → (segment : Bytes) × (normalize_segment track_id ≡ ok segment)
      × IsSegment segment
      × IsOneOf (extension_of filename) audio_extensions
      × (key ≡ layout segment (extension_of filename))
unfolding original_key
original_key-layout track_id filename key done =
    let (segment, normal, rest) = >>=-eq-ok (normalize_segment track_id) _ done in
    let s = normalize_segment-IsSegment track_id segment normal in
    let (valid, same) =
      key_with_inversion segment (or_bin (extension_of filename)) key s (ground arith) in
    let e = or_bin-IsOneOf (extension_of filename) valid in
    (
      segment,
      normal,
      s,
      subst (λ x. IsOneOf x audio_extensions) e valid,
      subst (λ x. key ≡ layout segment x) e same,
    )

or_bin_of_IsOneOf : (e : Bytes) → IsOneOf e audio_extensions → or_bin e ≡ e
unfolding bytes_eq
or_bin_of_IsOneOf [] h = ground arith
or_bin_of_IsOneOf (c ∷ s) h = refl

name-ne-nil : (name : Bytes) → IsOneOf (to_lower (ext name)) audio_extensions → name ≢ []
unfolding ext to_lower
name-ne-nil [] h = ground arith
name-ne-nil (c ∷ s) h = cc

key_of_valid :
    (segment name : Bytes)
    → IsSegment segment
    → IsOneOf (to_lower (ext name)) audio_extensions
    → key_of segment name ≡ ok (layout segment (to_lower (ext name)))
key_of_valid segment name s h = elim (Bool-cases (bytes_eq name [])) [
  | inl empty ↦ absurd (name-ne-nil name h ((bytes_eq_iff name []).0 empty))
  | inr named ↦ rw named (rw (or_bin_of_IsOneOf _ h) (key_with_valid segment _ s h))
]

-- A track id that is a segment, with a file whose extension in lower case is one of the six, is
-- accepted with the key raw/{segment}/original{extension}.
pub original_key_of_IsSegment :
    (segment filename : Bytes)
    → IsSegment segment
    → IsOneOf (extension_of filename) audio_extensions
    → original_key segment filename ≡ ok (layout segment (extension_of filename))
unfolding original_key
original_key_of_IsSegment segment filename s h =
    rw (normalize_segment_of_IsSegment segment s) (key_of_valid segment (trim_space filename) s h)

-- The key of an original: raw/{segment}/original{extension}, where the segment is the normalised
-- track id, and the extension is that of the file's name in lower case
abbrev pub IsOriginalKey : Bytes → Bytes → Bytes → Type 0
IsOriginalKey track_id filename key =
    (segment : Bytes) × (normalize_segment track_id ≡ ok segment)
    × IsOneOf (extension_of filename) audio_extensions
    × (key ≡ layout segment (extension_of filename))

-- `OriginalKey` accepts a track id and a file name if and only if the track id can be normalised and
-- the extension of the trimmed name, in lower case, is one of the six; and then the key is
-- raw/{segment}/original{extension}, for that segment and that extension.
pub original_key_iff :
    (track_id filename key : Bytes)
    → (original_key track_id filename ≡ ok key) ↔ IsOriginalKey track_id filename key
unfolding original_key
original_key_iff track_id filename key = (
  λ done.
      let (segment, normal, _, audio, e) = original_key-layout track_id filename key done in
      (segment, normal, audio, e),
  λ (segment, normal, audio, e).
      let named = normalize_segment-IsSegment track_id segment normal in
      rw normal (key_of_valid segment (trim_space filename) named audio ∙ ap ok (sym e)),
)

IsHexDigit-IsAllowed : (c : ℕ) → IsHexDigit c → IsAllowed c
IsHexDigit-IsAllowed c h = ground arith

-- The hexadecimal text of one random byte or more is a segment.
pub encode_to_string-IsSegment :
    (b : ℕ) (bs : Bytes) → All (λ x. x < 256) (b ∷ bs) → IsSegment (encode_to_string (b ∷ bs))
unfolding encode_to_string
encode_to_string-IsSegment b bs h =
    let hex = encode_to_string-All (b ∷ bs) h in
    (cc, cc, ground (arith, hex), All-map IsHexDigit-IsAllowed (encode_to_string (b ∷ bs)) hex)
