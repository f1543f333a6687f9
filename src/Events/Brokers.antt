-- ===== src/Events/Brokers.antt =====
-- The addresses of the brokers in the configuration.
use audio_streaming_service.Common.{
  ℕ, zero, suc, ◌≡◌, refl, ap, List, [], ◌∷◌, map, All, Bytes, arith,
}
use audio_streaming_service.Events.{broker_addresses}
use audio_streaming_service.Std.Path.{join}
use audio_streaming_service.Std.Path.Split.{IsPart, split-join}
use audio_streaming_service.Std.Strings.{trim_space}
use audio_streaming_service.Std.Strings.Laws.{IsSolid, indented, trim_space-indented}

-- An address, and the number of blanks in front of it
abbrev pub Entry : Type 0
Entry = ℕ × Bytes

abbrev pub written : Entry → Bytes
written (n, a) = indented n a

abbrev pub address : Entry → Bytes
address (n, a) = a

-- Without white space and commas
abbrev pub IsAddress : Entry → Type 0
IsAddress (n, a) = All IsSolid a × IsPart b',' a

indented-IsPart : (n : ℕ) (a : Bytes) → IsPart b',' a → IsPart b',' (indented n a)
indented-IsPart zero a h = h
indented-IsPart (suc n) a h = (omega arith, indented-IsPart n a h)

written-IsPart : (es : List Entry) → All IsAddress es → All (IsPart b',') (map written es)
written-IsPart [] _ = tt
written-IsPart ((n, a) ∷ es) ((solid, part), h) = (indented-IsPart n a part, written-IsPart es h)

trimmed : (es : List Entry) → All IsAddress es → map trim_space (map written es) ≡ map address es
trimmed [] _ = refl
trimmed ((n, a) ∷ es) ((solid, part), h) =
    rw (trim_space-indented n a solid) (ap (λ bs. a ∷ bs) (trimmed es h))

-- A list of one address or more, joined by commas, with any number of blanks in front of each, is
-- read back as the list of the addresses, if none of them contains white space, a comma or a byte
-- that is not printable ASCII.
pub broker_addresses-join :
    (e : Entry) (es : List Entry)
    → All IsAddress (e ∷ es)
    → broker_addresses (join b',' (map written (e ∷ es))) ≡ map address (e ∷ es)
unfolding broker_addresses
broker_addresses-join e es h =
    rw (split-join b',' (written e) (map written es) (written-IsPart (e ∷ es) h))
      (trimmed (e ∷ es) h)
