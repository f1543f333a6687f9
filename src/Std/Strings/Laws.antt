-- ===== src/Std/Strings/Laws.antt =====
-- Laws of the functions of package strings that keys and titles go through.
use mathlib.Core.List.{reverse-reverse}
use audio_streaming_service.Common.{
  ℕ, zero, suc, ◌∙◌, ◌<◌, ◌≡◌, ◌≢◌, refl, ◌↔◌, true, false, List, [], ◌∷◌, reverse, arith, ◌==◌,
  All, All-reverse, Bytes, codes, none, some, bytes_eq_iff, ◌⊎◌,
}
use audio_streaming_service.Std.Strings.{
  is_ascii_space, is_space_2, is_space_3, trim_left, trim_last, trim_space, after_prefix,
  trim_prefix, contains, is_one_of,
}

-- Printable ASCII other than the blank.
abbrev pub IsSolid : ℕ → Type 0
IsSolid c = (0x20 < c) × (c < 0x80)

trim_left_of_IsSolid : (s : Bytes) → All IsSolid s → trim_left s ≡ s
unfolding trim_left is_ascii_space is_space_2 is_space_3
trim_left_of_IsSolid [] _ = refl
trim_left_of_IsSolid (a ∷ []) h = ground arith
trim_left_of_IsSolid (a ∷ b ∷ []) h = ground arith
trim_left_of_IsSolid (a ∷ b ∷ c ∷ s) h = ground arith

trim_last_of_IsSolid : (s : Bytes) → All IsSolid s → trim_last s ≡ s
unfolding trim_last is_ascii_space is_space_2 is_space_3
trim_last_of_IsSolid [] _ = refl
trim_last_of_IsSolid (a ∷ []) h = ground arith
trim_last_of_IsSolid (a ∷ b ∷ []) h = ground arith
trim_last_of_IsSolid (a ∷ b ∷ c ∷ s) h = ground arith

pub trim_space_of_IsSolid : (s : Bytes) → All IsSolid s → trim_space s ≡ s
unfolding trim_space
trim_space_of_IsSolid s h =
    rw (trim_left_of_IsSolid s h)
      (rw (trim_last_of_IsSolid (reverse s) (All-reverse IsSolid s h)) (reverse-reverse s))

-- Blanks in front of a text
abbrev pub indented : ℕ → Bytes → Bytes
indented zero s = s
indented (suc n) s = 0x20 ∷ indented n s

trim_left-blank : (s : Bytes) → trim_left (0x20 ∷ s) ≡ trim_left s
unfolding trim_left is_ascii_space
trim_left-blank [] = refl
trim_left-blank (a ∷ []) = refl
trim_left-blank (a ∷ b ∷ s) = refl

trim_left-indented : (n : ℕ) (s : Bytes) → trim_left (indented n s) ≡ trim_left s
trim_left-indented zero s = refl
trim_left-indented (suc n) s = trim_left-blank (indented n s) ∙ trim_left-indented n s

-- The blanks in front of a text without white space are taken off.
pub trim_space-indented : (n : ℕ) (s : Bytes) → All IsSolid s → trim_space (indented n s) ≡ s
unfolding trim_space
trim_space-indented n s h = rw (trim_left-indented n s) (trim_space_of_IsSolid s h)

-- One slash is taken off the front.
pub trim_prefix_slash : (s : Bytes) → trim_prefix (b'/' ∷ s) (codes "/") ≡ s
unfolding trim_prefix after_prefix
trim_prefix_slash [] = refl
trim_prefix_slash (c ∷ s) = refl

-- A text with no leading slash keeps its bytes.
pub trim_prefix_none : (c : ℕ) (s : Bytes) → c ≢ b'/' → trim_prefix (c ∷ s) (codes "/") ≡ c ∷ s
unfolding trim_prefix after_prefix
trim_prefix_none c s h = ground arith

after_slash :
    (c : ℕ) (s : Bytes)
    → after_prefix (c ∷ s) (codes "/") ≡ (elim (c == b'/') [ true ↦ some s | false ↦ none ])
unfolding after_prefix
after_slash c [] = ground arith
after_slash c (d ∷ s) = ground arith

pub contains_slash_iff : (s : Bytes) → (contains s (codes "/") ≡ false) ↔ All (λ c. c ≢ b'/') s
unfolding contains after_prefix
contains_slash_iff [] = (λ _. tt, λ _. refl)
contains_slash_iff (c ∷ s) = ground (arith, contains_slash_iff s, after_slash c s)

-- Membership in a list of texts, spelled out.
abbrev pub IsOneOf : Bytes → List Bytes → Type 0
IsOneOf s [] = ⊥
IsOneOf s (t ∷ ts) = (s ≡ t) ⊎ IsOneOf s ts

pub is_one_of_iff : (s : Bytes) (ts : List Bytes) → (is_one_of s ts ≡ true) ↔ IsOneOf s ts
unfolding is_one_of
is_one_of_iff s [] = (λ h. cc, λ h. absurd h)
is_one_of_iff s (t ∷ ts) = ground (arith, bytes_eq_iff s t, is_one_of_iff s ts)
