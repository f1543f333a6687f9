-- ===== src/TrackStorage/Keys/KeyChecks.antt =====
-- What `validateKey` lets through, and which key is sent.
use audio_streaming_service.Common.{
  ◌≡◌, refl, ap, ◌∙◌, true, [], ◌∷◌, ◌++◌, arith, All, All-map, All-append, Bytes, codes, bytes_eq,
  bytes_eq_iff, ok,
}
use audio_streaming_service.Std.Path.{join, resolve_all}
use audio_streaming_service.Std.Path.Split.{split-join}
use audio_streaming_service.Std.Path.Elements.{NoSlash, resolve_all_of_IsElement}
use audio_streaming_service.Std.Path.Clean.{elements}
use audio_streaming_service.Std.Strings.{trim_prefix}
use audio_streaming_service.Std.Strings.Laws.{
  IsSolid, IsOneOf, trim_space_of_IsSolid, trim_prefix_none,
}
use audio_streaming_service.Storage.{sent_key}
use audio_streaming_service.TrackStorage.Keys.{audio_extensions, rooted, validate_key}
use audio_streaming_service.TrackStorage.Keys.Segments.{
  IsSegment, IsSegment-IsElement, IsAllowed-IsSolid, rooted_of_elements, rooted-join,
}
use audio_streaming_service.TrackStorage.Keys.OriginalKeys.{
  layout, IsOneOf-All, extension-NoSlash, file-IsElement,
}

module _ (segment e : Bytes) (s : IsSegment segment) (h : IsOneOf e audio_extensions) where
  layout-IsSolid : All IsSolid (layout segment e)
  layout-IsSolid = All-append IsSolid (codes "raw/") _ (omega arith) (
      All-append IsSolid segment _ (All-map IsAllowed-IsSolid segment s.3) (
        All-append IsSolid (codes "/original") e (omega arith)
          (IsOneOf-All (All IsSolid) e audio_extensions (omega arith) h)))

  rooted-layout : rooted (layout segment e) ≡ layout segment e
  unfolding join
  rooted-layout = rooted_of_elements (codes "raw" ∷ segment ∷ (codes "original" ++ e) ∷ []) (
    ((cc, cc, cc), omega arith),
    (IsSegment-IsElement segment s, (file-IsElement e (extension-NoSlash e h), tt)),
  )

  -- The key raw/{segment}/original{extension} of a stored original passes the check.
  pub validate_key-layout : validate_key (layout segment e) ≡ ok tt
  unfolding validate_key bytes_eq
  validate_key-layout =
      rw rooted-layout (rw (trim_space_of_IsSolid (layout segment e) layout-IsSolid) refl)

-- It is sent to the storage as it is.
pub trim_prefix-layout :
    (segment e : Bytes) → trim_prefix (layout segment e) (codes "/") ≡ layout segment e
trim_prefix-layout segment e = trim_prefix_none b'r' _ (omega arith)

module _ (s : Bytes) (named : IsSegment s) where
  parent-NoSlash : All NoSlash (codes ".." ∷ s ∷ [])
  parent-NoSlash = (omega arith, ((IsSegment-IsElement s named).1, tt))

  elements-parent : elements (join b'/' (codes ".." ∷ s ∷ [])) ≡ s ∷ []
  unfolding resolve_all bytes_eq
  elements-parent =
      rw (split-join b'/' (codes "..") (s ∷ []) parent-NoSlash)
        (resolve_all_of_IsElement true [] (s ∷ []) (IsSegment-IsElement s named, tt))

  rooted-parent : rooted (codes "../" ++ s) ≡ s
  unfolding join
  rooted-parent = rooted-join (codes "../" ++ s) ∙ ap (join b'/') elements-parent

  -- A key `../` with a segment behind it passes the check as well, and is sent as it is.
  pub validate_key_of_parent :
      (validate_key (codes "../" ++ s) ≡ ok tt) × (sent_key (codes "../" ++ s) ≡ codes "../" ++ s)
  unfolding validate_key
  validate_key_of_parent = (
    rw rooted-parent (
        rw (trim_space_of_IsSolid s (All-map IsAllowed-IsSolid s named.3))
          (ground (arith, bytes_eq_iff s [], bytes_eq_iff s (codes "."), named.0, named.1))),
    trim_prefix_none b'.' _ (omega arith),
  )
