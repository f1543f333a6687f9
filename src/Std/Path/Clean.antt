-- ===== src/Std/Path/Clean.antt =====
-- What `path.Clean` and `path.Join` return.
use audio_streaming_service.Common.{
  ◌≡◌, ◌≢◌, refl, true, false, List, [], ◌∷◌, ◌++◌, arith, All, All-map, Bytes, bytes_eq, ℕ,
}
use audio_streaming_service.Std.Path.{split, join, resolve_all, or_dot, clean}
use audio_streaming_service.Std.Path.Split.{split-join}
use audio_streaming_service.Std.Path.Elements.{
  IsElement, split-NoSlash, resolve_all-IsElement, resolve_all_of_IsElement,
}

-- The elements that are left of a rooted path.
abbrev pub elements : Bytes → List Bytes
elements s = resolve_all true [] (split b'/' s)

pub clean_rooted : (s : Bytes) → clean (b'/' ∷ s) ≡ b'/' ∷ join b'/' (elements s)
unfolding clean
clean_rooted s = refl

pub elements-IsElement : (s : Bytes) → All IsElement (elements s)
elements-IsElement s = resolve_all-IsElement [] (split b'/' s) tt (split-NoSlash s)

-- Cleaning finds the elements of a path that is clean already.
pub elements-join : (ps : List Bytes) → All IsElement ps → elements (join b'/' ps) ≡ ps
unfolding split join resolve_all bytes_eq
elements-join [] _ = refl
elements-join (p ∷ ps) h =
    rw (split-join b'/' p ps (All-map (λ _ e. e.1) (p ∷ ps) h))
      (resolve_all_of_IsElement true [] (p ∷ ps) h)

clean_head :
    (c : ℕ) (s : Bytes)
    → c ≢ b'/'
    → clean (c ∷ s) ≡ or_dot (join b'/' (resolve_all false [] (split b'/' (c ∷ s))))
unfolding clean
clean_head c s h = ground arith

clean_of_parts :
    (c : ℕ) (s : Bytes) (ps : List Bytes)
    → c ≢ b'/'
    → split b'/' (c ∷ s) ≡ ps
    → join b'/' ps ≡ c ∷ s
    → All IsElement ps
    → clean (c ∷ s) ≡ c ∷ s
clean_of_parts c s ps n cut joined h =
    rw (clean_head c s n) (rw cut (rw (resolve_all_of_IsElement false [] ps h) (rw joined refl)))

join_head : (c : ℕ) (p : Bytes) (ps : List Bytes) → (s : Bytes) × (join b'/' ((c ∷ p) ∷ ps) ≡ c ∷ s)
unfolding join
join_head c p [] = (p, refl)
join_head c p (q ∷ ps) = (p ++ b'/' ∷ join b'/' (q ∷ ps), refl)

-- A path that does not start with a slash and is made of proper elements is clean already.
pub clean_relative :
    (c : ℕ) (p : Bytes) (ps : List Bytes)
    → All IsElement ((c ∷ p) ∷ ps)
    → clean (join b'/' ((c ∷ p) ∷ ps)) ≡ join b'/' ((c ∷ p) ∷ ps)
clean_relative c p ps h =
    let (s, e) = join_head c p ps in
    let cut = split-join b'/' (c ∷ p) ps (All-map (λ _ x. x.1) ((c ∷ p) ∷ ps) h) in
    rw e (clean_of_parts c s ((c ∷ p) ∷ ps) h.0.1.0 (rw e at cut) e h)
