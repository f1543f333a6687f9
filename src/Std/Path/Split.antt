-- ===== src/Std/Path/Split.antt =====
-- strings.Split and strings.Join at a separator that the parts do not contain.
use audio_streaming_service.Common.{
  ℕ, ◌≡◌, ◌≢◌, refl, ap, ◌∙◌, List, [], ◌∷◌, ◌++◌, arith, All, Bytes,
}
use audio_streaming_service.Std.Path.{split, join}

module _ (sep : ℕ) where
  abbrev pub IsPart : Bytes → Type 0
  IsPart = All (λ c. c ≢ sep)

  pub split_of_IsPart : (s : Bytes) → IsPart s → split sep s ≡ s ∷ []
  unfolding split
  split_of_IsPart [] _ = refl
  split_of_IsPart (c ∷ s) (n, h) = ground (arith, split_of_IsPart s h)

  split-append : (s t : Bytes) → IsPart s → split sep (s ++ sep ∷ t) ≡ s ∷ split sep t
  unfolding split
  split-append [] t _ = ground arith
  split-append (c ∷ s) t (n, h) = ground (arith, split-append s t h)

  pub split-join :
      (p : Bytes) (ps : List Bytes) → All IsPart (p ∷ ps) → split sep (join sep (p ∷ ps)) ≡ p ∷ ps
  unfolding join
  split-join p [] (h, _) = split_of_IsPart p h
  split-join p (q ∷ ps) (h, hs) =
      split-append p (join sep (q ∷ ps)) h ∙ ap (λ r. p ∷ r) (split-join q ps hs)
