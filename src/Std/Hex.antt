-- ===== src/Std/Hex.antt =====
-- `hex.EncodeToString` of package encoding/hex.
use audio_streaming_service.Common.{
  ℕ, ◌+◌, ◌/◌, ◌%◌, ◌-◌, ◌<◌, ◌≤◌, ◌≡◌, refl, ◌⊎◌, [], ◌∷◌, arith, ltb, if◌then◌else◌, All, length,
  Bytes, codes, ◌*◌,
}

abbrev digit : ℕ → ℕ
digit n = if ltb n 10 then b'0' + n else b'a' + (n - 10)

unfoldable pub encode_to_string : Bytes → Bytes
encode_to_string [] = []
encode_to_string (b ∷ bs) = digit (b / 16) ∷ digit (b % 16) ∷ encode_to_string bs

abbrev pub IsHexDigit : ℕ → Type 0
IsHexDigit c = (b'0' ≤ c) × (c ≤ b'9') ⊎ (b'a' ≤ c) × (c ≤ b'f')

pub encode_to_string-All :
    (bs : Bytes) → All (λ b. b < 256) bs → All IsHexDigit (encode_to_string bs)
unfolding encode_to_string
encode_to_string-All [] _ = tt
encode_to_string-All (b ∷ bs) (h, hs) = (ground arith, (ground arith, encode_to_string-All bs hs))

pub length-encode_to_string : (bs : Bytes) → length (encode_to_string bs) ≡ 2 * length bs
unfolding encode_to_string
length-encode_to_string [] = refl
length-encode_to_string (b ∷ bs) = omega (arith, length-encode_to_string bs)

encode_test : encode_to_string (0 ∷ 255 ∷ 0x1a ∷ []) ≡ codes "00ff1a"
unfolding encode_to_string
encode_test = refl
