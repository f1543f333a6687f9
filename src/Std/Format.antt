-- ===== src/Std/Format.antt =====
-- The verb %d of `fmt.Sprintf`, and that its digits can be read back.
use audio_streaming_service.Common.{
  ◌≤◌, ◌⊎◌, All, ℕ, zero, suc, ◌+◌, ◌-◌, ◌*◌, ◌/◌, ◌%◌, ◌<◌, ◌≡◌, refl, ap, ◌∙◌, [], ◌∷◌, Bytes,
  codes, ltb, if◌then◌else◌, Bool-cases, inl, inr, arith, ℤ, pos, negsuc,
}

-- The digits of a number, on fuel: it has at most one digit more than its value.
unfoldable pub decimal_from : ℕ → ℕ → Bytes → Bytes
decimal_from zero n out = out
decimal_from (suc fuel) n out =
    let more = decimal_from fuel (n / 10) ((b'0' + n % 10) ∷ out) in
    if ltb n 10 then (b'0' + n % 10) ∷ out else more

unfoldable pub decimal : ℕ → Bytes
unfolding decimal_from
decimal n = decimal_from (suc n) n []

-- `%d` of an integer
unfoldable pub decimal_int : ℤ → Bytes
unfolding decimal
decimal_int (pos n) = decimal n
decimal_int (negsuc n) = b'-' ∷ decimal (suc n)

-- The number that a text of digits stands for, behind digits that stand for the first argument
unfoldable pub read_from : ℕ → Bytes → ℕ
read_from n [] = n
read_from n (c ∷ s) = read_from (n * 10 + (c - b'0')) s

read_from-decimal_from :
    (fuel n : ℕ) (out : Bytes) → n < fuel → read_from 0 (decimal_from fuel n out) ≡ read_from n out
unfolding read_from decimal_from
read_from-decimal_from zero n out h = absurd (omega (arith, h))
read_from-decimal_from (suc fuel) n out h = elim (Bool-cases (ltb n 10)) [
  | inl small ↦ rw small (ap (λ m. read_from m out) (ground arith))
  | inr large ↦ rw large (
      read_from-decimal_from fuel (n / 10) _ (ground arith)
      ∙ ap (λ m. read_from m out) (ground arith))
]

-- The fuel of `decimal` is enough.
pub read_from-decimal : (n : ℕ) → read_from 0 (decimal n) ≡ n
unfolding decimal read_from
read_from-decimal n = read_from-decimal_from (suc n) n [] (omega arith)

-- Digits, behind a minus sign at most
abbrev pub IsNumeric : ℕ → Type 0
IsNumeric c = (b'0' ≤ c) × (c ≤ b'9') ⊎ (c ≡ b'-')

decimal_from-All :
    (fuel n : ℕ) (out : Bytes) → All IsNumeric out → All IsNumeric (decimal_from fuel n out)
unfolding decimal_from
decimal_from-All zero n out h = h
decimal_from-All (suc fuel) n out h =
    let d : IsNumeric (b'0' + n % 10) = ground arith in
    let more = decimal_from-All fuel (n / 10) ((b'0' + n % 10) ∷ out) (d, h) in
    elim (Bool-cases (ltb n 10)) [ inl small ↦ rw small (d, h) | inr large ↦ rw large more ]

pub decimal_int-All : (n : ℤ) → All IsNumeric (decimal_int n)
unfolding decimal_int decimal
decimal_int-All (pos n) = decimal_from-All (suc n) n [] tt
decimal_int-All (negsuc n) = (inr refl, decimal_from-All (suc (suc n)) (suc n) [] tt)

decimal_test : decimal 12030 ≡ codes "12030"
unfolding decimal
decimal_test = refl
