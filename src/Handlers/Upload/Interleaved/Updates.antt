-- ===== src/Handlers/Upload/Interleaved/Updates.antt =====
-- What holds of every request, or of every two, after one of them has changed.
use mathlib.Core.Logic.{ite}
use mathlib.Core.Path.{subst}
use native.Mathlib.Decide.{ℕ_discrete}
use audio_streaming_service.Common.{ℕ, ◌≢◌, refl}
use audio_streaming_service.Handlers.Upload.Interleaved.{update}

module _ {ℓ κ} {A : Type ℓ} (f : ℕ → A) (i : ℕ) (a : A) where
  pub update-All :
      (P : ℕ → A → Type κ) → P i a → ((j : ℕ) → i ≢ j → P j (f j)) → (j : ℕ) → P j (update f i a j)
  update-All P changed others j = elim (ℕ_discrete i j) as (λ d. P j (ite d a (f j))) [
    | yes e ↦ subst (λ k. P k a) e changed
    | no n ↦ others j n
  ]

  pub update-pairs :
      (R : A → A → Type κ)
      → ((x y : A) → R x y → R y x)
      → ((j : ℕ) → i ≢ j → R a (f j))
      → ((j k : ℕ) → j ≢ k → R (f j) (f k))
      → (j k : ℕ) → j ≢ k
      → R (update f i a j) (update f i a k)
  update-pairs R swap changed others =
      update-All (λ j x. (k : ℕ) → j ≢ k → R x (update f i a k))
        (update-All (λ k y. i ≢ k → R a y) (λ n. absurd (n refl)) (λ k n _. changed k n))
        (λ j n.
          update-All (λ k y. j ≢ k → R (f j) y) (λ _. swap a (f j) (changed j n))
            (λ k _. others j k))
