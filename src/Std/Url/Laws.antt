-- ===== src/Std/Url/Laws.antt =====
-- How an escaped text is read back, and which bytes it does not hold.
use audio_streaming_service.Common.{
  ℕ, ◌+◌, ◌-◌, ◌*◌, ◌/◌, ◌%◌, ◌<◌, ◌≡◌, ◌≢◌, refl, sym, ap, ◌∙◌, Bool, true, false, ◌&&◌, [], ◌∷◌,
  ◌++◌, Option, none, some, arith, leb, ◌==◌, if◌then◌else◌, All, All-append, Bytes, codes,
  Bool-cases, ◌⊎◌, inl, inr,
}
use audio_streaming_service.Std.Url.{
  Mode, encode_host, encode_user_password, encode_path, encode_query_component, is_query,
  should_escape, escape_byte, escape, upper_digit,
}

-- The reader is behind no percent sign, behind one, or behind one and a digit.
data Pending : Type 0 where
  plain percent : Pending
  half : ℕ → Pending

hex_value : ℕ → Option ℕ
hex_value c =
    if leb b'0' c && leb c b'9'
    then some (c - b'0')
    else if leb b'A' c && leb c b'F'
    then some (c - b'A' + 10)
    else none

abbrev pub put : ℕ → Option Bytes → Option Bytes
put c none = none
put c (some s) = some (c ∷ s)

abbrev with_digit : Option ℕ → (ℕ → Option Bytes) → Option Bytes
with_digit none next = none
with_digit (some h) next = next h

-- The argument says whether `+` stands for a blank.
read_escaped : Bool → Pending → Bytes → Option Bytes
read_escaped plus plain [] = some []
read_escaped plus percent [] = none
read_escaped plus (half h) [] = none
read_escaped plus plain (c ∷ s) = elim (c == b'%') [
  | true ↦ read_escaped plus percent s
  | false ↦ put (if plus && c == b'+' then b' ' else c) (read_escaped plus plain s)
]
read_escaped plus percent (c ∷ s) = with_digit (hex_value c) (λ h. read_escaped plus (half h) s)
read_escaped plus (half h) (c ∷ s) =
    with_digit (hex_value c) (λ l. put (h * 16 + l) (read_escaped plus plain s))

-- The text that an escaped one stands for, if it is one
pub unescape : Bool → Bytes → Option Bytes
unfolding read_escaped hex_value
unescape plus s = read_escaped plus plain s

hex_value-upper_digit : (n : ℕ) → n < 16 → hex_value (upper_digit n) ≡ some n
unfolding hex_value
hex_value-upper_digit n h = ground arith

read_escaped-percent :
    (plus : Bool) (h l : ℕ) (s : Bytes)
    → h < 16
    → l < 16
    → read_escaped plus plain (b'%' ∷ upper_digit h ∷ upper_digit l ∷ s)
      ≡ put (h * 16 + l) (read_escaped plus plain s)
unfolding read_escaped
read_escaped-percent plus h l s hh hl =
    rw (hex_value-upper_digit h hh) (rw (hex_value-upper_digit l hl) refl)

read_escaped-plain :
    (plus : Bool) (c : ℕ) (s : Bytes)
    → c ≢ b'%'
    → (plus && c == b'+') ≡ false
    → read_escaped plus plain (c ∷ s) ≡ put c (read_escaped plus plain s)
unfolding read_escaped
read_escaped-plain plus c s n m = ground arith

kept-plain :
    (mode : Mode) (c : ℕ)
    → should_escape mode c ≡ false
    → (c ≢ b'%') × ((is_query mode && c == b'+') ≡ false)
unfolding should_escape
kept-plain encode_host c h = ground arith
kept-plain encode_user_password c h = ground arith
kept-plain encode_path c h = ground arith
kept-plain encode_query_component c h = ground arith

read_escaped-blank :
    (s : Bytes) → read_escaped true plain (b'+' ∷ s) ≡ put b' ' (read_escaped true plain s)
unfolding read_escaped
read_escaped-blank s = refl

abbrev escaped_form : Bool → ℕ → Bytes
escaped_form blank c =
    if blank then codes "+" else b'%' ∷ upper_digit (c / 16) ∷ upper_digit (c % 16) ∷ []

read_escaped-escaped_form :
    (plus : Bool) (c : ℕ) (s : Bytes)
    → c < 256
    → read_escaped plus plain (escaped_form (plus && c == b' ') c ++ s)
      ≡ put c (read_escaped plus plain s)
read_escaped-escaped_form plus c s h = elim (Bool-cases (plus && c == b' ')) [
  | inl blank ↦
      let e : plus ≡ true = ground arith in
      let e' : c ≡ b' ' = ground arith in rw blank (rw (e, e') (read_escaped-blank s))
  | inr other ↦ rw other (
      read_escaped-percent plus (c / 16) (c % 16) s (omega arith) (omega arith)
      ∙ ap (λ n. put n (read_escaped plus plain s)) (omega arith))
]

read_escaped-escape_byte :
    (mode : Mode) (c : ℕ) (s : Bytes)
    → c < 256
    → read_escaped (is_query mode) plain (escape_byte mode c ++ s)
      ≡ put c (read_escaped (is_query mode) plain s)
unfolding escape_byte
read_escaped-escape_byte mode c s h = elim (Bool-cases (should_escape mode c)) [
  | inl escaped ↦ rw escaped (read_escaped-escaped_form (is_query mode) c s h)
  | inr kept ↦
      let (n, m) = kept-plain mode c kept in rw kept (read_escaped-plain (is_query mode) c s n m)
]

-- An escaped text is read back, by a reader for the same part of a URL.
pub unescape-escape :
    (mode : Mode) (s : Bytes)
    → All (λ c. c < 256) s
    → unescape (is_query mode) (escape mode s) ≡ some s
unfolding unescape escape read_escaped
unescape-escape mode [] _ = refl
unescape-escape mode (c ∷ s) (h, hs) =
    read_escaped-escape_byte mode c (escape mode s) h ∙ ap (put c) (unescape-escape mode s hs)

abbrev pub Lacks : ℕ → Bytes → Type 0
Lacks d = All (λ c. c ≢ d)

-- A byte that neither escapes nor digits use
abbrev pub IsReserved : ℕ → Type 0
IsReserved d = (d ≢ b'%') × (d ≢ b'+') × ((d < b'0') ⊎ (b'9' < d)) × ((d < b'A') ⊎ (b'F' < d))

upper_digit-ne : (n d : ℕ) → n < 16 → IsReserved d → upper_digit n ≢ d
upper_digit-ne n d h r = ground arith

escape_byte-Lacks :
    (mode : Mode) (d c : ℕ)
    → IsReserved d
    → should_escape mode d ≡ true
    → c < 256
    → Lacks d (escape_byte mode c)
unfolding escape_byte
escape_byte-Lacks mode d c r e h = elim (Bool-cases (should_escape mode c)) [
  | inl escaped ↦ rw escaped (elim (Bool-cases (is_query mode && c == b' ')) [
    | inl blank ↦ rw blank (ground arith)
    | inr other ↦ rw other (
      λ p. r.0 (sym p),
      (upper_digit-ne (c / 16) d (omega arith) r, (upper_digit-ne (c % 16) d (omega arith) r, tt)),
    )
  ])
  | inr kept ↦ rw kept (λ p. cc, tt)
]

-- An escaped text holds none of the bytes that are escaped.
pub escape-Lacks :
    (mode : Mode) (d : ℕ) (s : Bytes)
    → IsReserved d
    → should_escape mode d ≡ true
    → All (λ c. c < 256) s
    → Lacks d (escape mode s)
unfolding escape
escape-Lacks mode d [] r e _ = tt
escape-Lacks mode d (c ∷ s) r e (h, hs) =
    All-append _ (escape_byte mode c) (escape mode s) (escape_byte-Lacks mode d c r e h)
      (escape-Lacks mode d s r e hs)

-- A text with nothing to escape is printed as it is.
pub escape_kept :
    (mode : Mode) (s : Bytes) → All (λ c. should_escape mode c ≡ false) s → escape mode s ≡ s
unfolding escape escape_byte
escape_kept mode [] _ = refl
escape_kept mode (c ∷ s) (h, hs) = rw h (ap (λ t. c ∷ t) (escape_kept mode s hs))

pub unescape_star : unescape false (codes "*") ≡ some (codes "*")
unfolding unescape read_escaped
unescape_star = refl
