-- ===== src/TrackStorage/Keys/Segments.antt =====
-- What `normalizeSegment` accepts and returns.
use audio_streaming_service.Common.{
  ℕ, ◌≤◌, ◌≡◌, ◌≢◌, refl, ap, ◌∙◌, ◌↔◌, true, false, List, [], ◌∷◌, arith, All, All-map, Bytes,
  codes, bytes_eq_iff, ◌⊎◌, inl, inr, ok,
}
use mathlib.Core.Path.{subst}
use audio_streaming_service.Std.Path.{join}
use audio_streaming_service.Std.Path.Elements.{NoSlash, IsElement, join_of_NoSlash}
use audio_streaming_service.Std.Path.Clean.{
  elements, clean_rooted, elements-IsElement, elements-join,
}
use audio_streaming_service.Std.Strings.{trim_space, contains}
use audio_streaming_service.Std.Strings.Laws.{
  IsSolid, trim_space_of_IsSolid, trim_prefix_slash, contains_slash_iff,
}
use audio_streaming_service.TrackStorage.Keys.{
  is_allowed, all_allowed, matches_allowed, rooted, checked_segment, normalize_segment,
}

-- a-z, A-Z, 0-9, dot, underscore, hyphen
abbrev pub IsAllowed : ℕ → Type 0
IsAllowed c =
    (b'a' ≤ c) × (c ≤ b'z')
    ⊎ (b'A' ≤ c) × (c ≤ b'Z')
    ⊎ (b'0' ≤ c) × (c ≤ b'9')
    ⊎ (c ≡ b'.')
    ⊎ (c ≡ b'_')
    ⊎ (c ≡ b'-')

-- A name that stays in the directory it is put in.
abbrev pub IsSegment : Bytes → Type 0
IsSegment s = (s ≢ []) × (s ≢ codes ".") × (s ≢ codes "..") × All IsAllowed s

is_allowed_iff : (c : ℕ) → (is_allowed c ≡ true) ↔ IsAllowed c
is_allowed_iff c = ground arith

all_allowed_iff : (s : Bytes) → (all_allowed s ≡ true) ↔ All IsAllowed s
all_allowed_iff [] = (λ _. tt, λ _. refl)
all_allowed_iff (c ∷ s) = ground (arith, is_allowed_iff c, all_allowed_iff s)

matches_allowed_iff : (s : Bytes) → (matches_allowed s ≡ true) ↔ ((s ≢ []) × All IsAllowed s)
matches_allowed_iff [] = (λ h. cc, λ h. absurd (h.0 refl))
matches_allowed_iff (c ∷ s) = ground (arith, is_allowed_iff c, all_allowed_iff s)

pub rooted-join : (s : Bytes) → rooted s ≡ join b'/' (elements s)
rooted-join s = rw (clean_rooted s) (trim_prefix_slash _)

pub IsAllowed-IsSolid : (c : ℕ) → IsAllowed c → IsSolid c
IsAllowed-IsSolid c h = ground arith

IsAllowed-ne-slash : (c : ℕ) → IsAllowed c → c ≢ b'/'
IsAllowed-ne-slash c h = ground arith

pub IsSegment-IsElement : (s : Bytes) → IsSegment s → IsElement s
IsSegment-IsElement s (n, dot, dots, h) = ((n, dot, dots), All-map IsAllowed-ne-slash s h)

pub rooted_of_elements : (ps : List Bytes) → All IsElement ps → rooted (join b'/' ps) ≡ join b'/' ps
rooted_of_elements ps h = rooted-join (join b'/' ps) ∙ ap (join b'/') (elements-join ps h)

rooted_of_IsSegment : (s : Bytes) → IsSegment s → rooted s ≡ s
unfolding join
rooted_of_IsSegment s h = rooted_of_elements (s ∷ []) (IsSegment-IsElement s h, tt)

checked_of_IsSegment : (s : Bytes) → IsSegment s → checked_segment s ≡ ok s
checked_of_IsSegment s h = ground (
  arith,
  bytes_eq_iff s [],
  bytes_eq_iff s (codes "."),
  (contains_slash_iff s).1 (All-map IsAllowed-ne-slash s h.3),
  (matches_allowed_iff s).1 (h.0, h.3),
)

-- A segment is accepted and returned as it is.
pub normalize_segment_of_IsSegment : (s : Bytes) → IsSegment s → normalize_segment s ≡ ok s
unfolding normalize_segment
normalize_segment_of_IsSegment s h =
    rw (trim_space_of_IsSolid s (All-map IsAllowed-IsSolid s h.3))
      (rw (rooted_of_IsSegment s h) (checked_of_IsSegment s h))

module _ (v s : Bytes) (done : checked_segment v ≡ ok s) where
  checked-eq : v ≡ s
  checked-eq = ground arith

  checked-facts :
      (v ≢ []) × (v ≢ codes ".") × (contains v (codes "/") ≡ false) × (matches_allowed v ≡ true)
  checked-facts = ground (arith, bytes_eq_iff v [], bytes_eq_iff v (codes "."))

IsElement-rooted : (v : Bytes) → NoSlash (rooted v) → rooted v ≢ [] → IsElement (rooted v)
unfolding join
IsElement-rooted v h n = elim (join_of_NoSlash (elements v) (rw rooted-join at h)) [
  | inl none_left ↦ absurd (n (rooted-join v ∙ ap (join b'/') none_left))
  | inr (p, one_left) ↦
      rw (rooted-join v ∙ ap (join b'/') one_left)
        (let (first, _) = subst (All IsElement) one_left (elements-IsElement v) in first)
]

-- Every accepted text is turned into a segment: one or more allowed bytes other than `.` and `..`.
pub normalize_segment-IsSegment : (v s : Bytes) → normalize_segment v ≡ ok s → IsSegment s
unfolding normalize_segment
normalize_segment-IsSegment v s done =
    let v' = rooted (trim_space v) in
    let (full, dot, no_slash, allowed) = checked-facts v' s done in
    let e = IsElement-rooted (trim_space v) ((contains_slash_iff v').0 no_slash) full in
    rw (← checked-eq v' s done) (full, dot, e.0.2, ((matches_allowed_iff v').0 allowed).1)

-- A text is accepted as a segment if and only if it is that segment once it is trimmed, cleaned as a
-- rooted path and its slash is taken off, and a segment is one or more of the allowed bytes, other
-- than `.` and `..`.
pub normalize_segment_iff :
    (v s : Bytes) → (normalize_segment v ≡ ok s) ↔ ((rooted (trim_space v) ≡ s) × IsSegment s)
unfolding normalize_segment
normalize_segment_iff v s = (
  λ done. (checked-eq (rooted (trim_space v)) s done, normalize_segment-IsSegment v s done),
  λ (e, named). rw e (checked_of_IsSegment s named),
)
