-- ===== src/Std/Strings.antt =====
-- Package strings, on bytes.
pub mod Laws
use audio_streaming_service.Common.{
  ◌+◌, Option, none, some, ◌||◌, map, bytes_eq, false, List, ℕ, ◌≡◌, refl, Bool, true, false, ◌&&◌,
  ◌||◌, [], ◌∷◌, reverse, leb, ◌==◌, if◌then◌else◌, Bytes, codes,
}

-- The ASCII bytes that `unicode.IsSpace` accepts.
is_ascii_space : ℕ → Bool
is_ascii_space c = c == 0x20 || (leb 0x09 c && leb c 0x0d)

-- The UTF-8 encodings of its other runes: U+0085 and U+00A0 take two bytes; U+1680, U+2000 to
-- U+200A, U+2028, U+2029, U+202F, U+205F and U+3000 take three.
is_space_2 : ℕ → ℕ → Bool
is_space_2 a b = a == 0xc2 && (b == 0x85 || b == 0xa0)

is_space_3 : ℕ → ℕ → ℕ → Bool
is_space_3 a b c =
    (a == 0xe1 && b == 0x9a && c == 0x80)
    || (a == 0xe2 && b == 0x80 && (leb 0x80 c && leb c 0x8a || c == 0xa8 || c == 0xa9 || c == 0xaf))
    || (a == 0xe2 && b == 0x81 && c == 0x9f)
    || (a == 0xe3 && b == 0x80 && c == 0x80)

-- Drops leading white space.
trim_left : Bytes → Bytes
trim_left [] = []
trim_left (a ∷ []) = if is_ascii_space a then [] else a ∷ []
trim_left (a ∷ b ∷ []) = elim (is_ascii_space a) [
  | true ↦ trim_left (b ∷ [])
  | false ↦ if is_space_2 a b then [] else a ∷ b ∷ []
]
trim_left (a ∷ b ∷ c ∷ s) = elim (is_ascii_space a) [
  | true ↦ trim_left (b ∷ c ∷ s)
  | false ↦ elim (is_space_2 a b) [
    | true ↦ trim_left (c ∷ s)
    | false ↦ elim (is_space_3 a b c) [ true ↦ trim_left s | false ↦ a ∷ b ∷ c ∷ s ]
  ]
]

-- The same on the reversed bytes.
trim_last : Bytes → Bytes
trim_last [] = []
trim_last (a ∷ []) = if is_ascii_space a then [] else a ∷ []
trim_last (b ∷ a ∷ []) = elim (is_ascii_space b) [
  | true ↦ trim_last (a ∷ [])
  | false ↦ if is_space_2 a b then [] else b ∷ a ∷ []
]
trim_last (c ∷ b ∷ a ∷ s) = elim (is_ascii_space c) [
  | true ↦ trim_last (b ∷ a ∷ s)
  | false ↦ elim (is_space_2 b c) [
    | true ↦ trim_last (a ∷ s)
    | false ↦ elim (is_space_3 a b c) [ true ↦ trim_last s | false ↦ c ∷ b ∷ a ∷ s ]
  ]
]

-- `strings.TrimSpace`
unfoldable pub trim_space : Bytes → Bytes
unfolding trim_left trim_last is_ascii_space is_space_2 is_space_3
trim_space s = reverse (trim_last (reverse (trim_left s)))

-- `strings.HasPrefix(s, prefix)`, with what follows the prefix
unfoldable pub after_prefix : Bytes → Bytes → Option Bytes
after_prefix s [] = some s
after_prefix [] (_ ∷ _) = none
after_prefix (c ∷ s) (p ∷ prefix) = if c == p then after_prefix s prefix else none

abbrev or_whole : Bytes → Option Bytes → Bytes
or_whole s none = s
or_whole s (some rest) = rest

-- `strings.TrimPrefix(s, prefix)`
unfoldable pub trim_prefix : Bytes → Bytes → Bytes
unfolding after_prefix
trim_prefix s prefix = or_whole s (after_prefix s prefix)

abbrev is_found : Option Bytes → Bool
is_found none = false
is_found (some _) = true

-- `strings.Contains(s, part)`
unfoldable pub contains : Bytes → Bytes → Bool
unfolding after_prefix
contains [] part = is_found (after_prefix [] part)
contains (c ∷ s) part = is_found (after_prefix (c ∷ s) part) || contains s part

-- `strings.ToLower` on ASCII letters. Other bytes stay. Of the letters outside ASCII only U+0130
-- and U+212A have an ASCII lower case, `i` and `k`, which no audio extension holds, so a
-- comparison of the result with an audio extension comes out as in Go.
abbrev lower_byte : ℕ → ℕ
lower_byte c = if leb b'A' c && leb c b'Z' then c + 32 else c

unfoldable pub to_lower : Bytes → Bytes
to_lower s = map lower_byte s

-- A `switch` on string constants, and a key test of a map whose keys are strings.
unfoldable pub is_one_of : Bytes → List Bytes → Bool
unfolding bytes_eq
is_one_of s [] = false
is_one_of s (t ∷ ts) = bytes_eq s t || is_one_of s ts

trim_space_test : trim_space (codes " \ta b\n ") ≡ codes "a b"
unfolding trim_space
trim_space_test = refl

trim_space_wide : trim_space (0xc2 ∷ 0xa0 ∷ b'x' ∷ 0xe3 ∷ 0x80 ∷ 0x80 ∷ []) ≡ b'x' ∷ []
unfolding trim_space
trim_space_wide = refl
