-- ===== src/Std/Path/Elements.antt =====
-- The elements of a path: cutting, joining and resolving them.
use audio_streaming_service.Common.{
  ◌≡◌, ◌≢◌, refl, sym, Bool, true, List, [], ◌∷◌, ◌++◌, reverse, append-nil, append_assoc, arith, ℕ,
  All, All-reverse, Bytes, codes, bytes_eq_iff, ◌⊎◌, inl, inr,
}
use mathlib.Core.List.{reverse-cons}
use audio_streaming_service.Std.Path.{extend, split, join, resolve, resolve_all}

abbrev pub NoSlash : Bytes → Type 0
NoSlash = All (λ c. c ≢ b'/')

abbrev pub IsPlain : Bytes → Type 0
IsPlain p = (p ≢ []) × (p ≢ codes ".") × (p ≢ codes "..")

-- What may stand between two slashes of a cleaned rooted path.
abbrev pub IsElement : Bytes → Type 0
IsElement p = IsPlain p × NoSlash p

extend-NoSlash : (c : ℕ) (ps : List Bytes) → c ≢ b'/' → All NoSlash ps → All NoSlash (extend c ps)
extend-NoSlash c [] n h = ((n, tt), tt)
extend-NoSlash c (p ∷ ps) n (hp, hps) = ((n, hp), hps)

pub split-NoSlash : (s : Bytes) → All NoSlash (split b'/' s)
unfolding split
split-NoSlash [] = (tt, tt)
split-NoSlash (c ∷ s) = ground (arith, split-NoSlash s, extend-NoSlash c (split b'/' s))

resolve-IsElement :
    (stack : List Bytes) (part : Bytes)
    → All IsElement stack
    → NoSlash part
    → All IsElement (resolve true stack part)
resolve-IsElement [] part h n =
    ground
      (arith, bytes_eq_iff part [], bytes_eq_iff part (codes "."), bytes_eq_iff part (codes ".."))
resolve-IsElement (top ∷ stack) part h n =
    ground
      (arith, bytes_eq_iff part [], bytes_eq_iff part (codes "."), bytes_eq_iff part (codes ".."))

-- Resolving from the root leaves only proper elements.
pub resolve_all-IsElement :
    (stack parts : List Bytes)
    → All IsElement stack
    → All NoSlash parts
    → All IsElement (resolve_all true stack parts)
unfolding resolve_all
resolve_all-IsElement stack [] h _ = All-reverse IsElement stack h
resolve_all-IsElement stack (part ∷ parts) h (n, ns) =
    resolve_all-IsElement (resolve true stack part) parts (resolve-IsElement stack part h n) ns

resolve_of_IsPlain :
    (rooted : Bool) (stack : List Bytes) (part : Bytes)
    → IsPlain part
    → resolve rooted stack part ≡ part ∷ stack
resolve_of_IsPlain rooted stack part h =
    ground
      (arith, bytes_eq_iff part [], bytes_eq_iff part (codes "."), bytes_eq_iff part (codes ".."))

-- Proper elements are kept as they are.
pub resolve_all_of_IsElement :
    (rooted : Bool) (stack parts : List Bytes)
    → All IsElement parts
    → resolve_all rooted stack parts ≡ reverse stack ++ parts
unfolding resolve_all
resolve_all_of_IsElement rooted stack [] _ = sym (append-nil _)
resolve_all_of_IsElement rooted stack (part ∷ parts) ((plain, _), h) =
    rw (resolve_of_IsPlain rooted stack part plain) (
      rw (resolve_all_of_IsElement rooted (part ∷ stack) parts h)
        (simp (reverse-cons, append_assoc)))

-- Two elements or more are joined by a slash.
pub join_of_NoSlash :
    (ps : List Bytes) → NoSlash (join b'/' ps) → (ps ≡ []) ⊎ ((p : Bytes) × (ps ≡ p ∷ []))
unfolding join
join_of_NoSlash [] h = inl refl
join_of_NoSlash (p ∷ []) h = inr (p, refl)
join_of_NoSlash (p ∷ q ∷ ps) h = absurd (slash_inside p _ h)
  where
    slash_inside : (s t : Bytes) → ¬ NoSlash (s ++ b'/' ∷ t)
    slash_inside [] t (n, _) = n refl
    slash_inside (c ∷ s) t (_, k) = slash_inside s t k
