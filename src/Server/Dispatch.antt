-- ===== src/Server/Dispatch.antt =====
-- Which route of a router serves a request.
use audio_streaming_service.Common.{
  Option-cases, ℕ, ◌≡◌, refl, Bool, false, ◌||◌, List, [], ◌∷◌, none, some, bytes_eq, bytes_eq_iff,
  ◌⊎◌, inl, inr, Bool-cases, In, here, there,
}
use audio_streaming_service.Handlers.{Request, Response}
use audio_streaming_service.Server.{Route}
use audio_streaming_service.Server.Routing.{Vars, dispatch, Router}

module _ {W : Type 0} (router : Router) where
  -- A route that no other one's pattern shares is the one that serves.
  pub dispatch_unique :
      (x : Route W) (vars : Vars) (r : Request) (w : W)
      → router.match x.pattern r.path ≡ some vars
      → r.method ≡ x.method
      → {xs : List (Route W)} → In x xs
      → ((y : Route W) → In y xs → (y ≡ x) ⊎ (router.match y.pattern r.path ≡ none))
      → (seen : Bool) → dispatch router seen xs r w ≡ x.serve_http (record r { vars = vars }) w
  unfolding dispatch
  dispatch_unique x vars r w fits method here others seen =
      rw fits (rw ((bytes_eq_iff r.method x.method).1 method) refl)
  dispatch_unique x vars r w fits method (there {y} {xs} i) others seen = elim (others y here) [
    | inl same ↦ rw same (rw fits (rw ((bytes_eq_iff r.method x.method).1 method) refl))
    | inr apart ↦
        rw apart
          (dispatch_unique x vars r w fits method i (λ z j. others z (there j)) (seen || false))
  ]

  -- Where no pattern fits, the answer is 404.
  pub dispatch-none :
      (r : Request) (w : W) (xs : List (Route W))
      → ((y : Route W) → In y xs → router.match y.pattern r.path ≡ none)
      → dispatch router false xs r w ≡ (router.plain_answer 404, w)
  unfolding dispatch
  dispatch-none r w [] apart = refl
  dispatch-none r w (y ∷ xs) apart =
      rw (apart y here) (dispatch-none r w xs (λ z j. apart z (there j)))

module _ {W : Type 0} (router : Router) (P : Response × W → Type 0) (r : Request) (w : W)
    (plain : (status : ℕ) → P (router.plain_answer status, w)) where
  -- What holds of the answers of the router itself, and of each route that fits, holds of what is
  -- dispatched.
  pub dispatch_each :
      (xs : List (Route W))
      → ((x : Route W) (vars : Vars)
          → In x xs
          → router.match x.pattern r.path ≡ some vars
          → r.method ≡ x.method
          → P (x.serve_http (record r { vars = vars }) w))
      → (seen : Bool) → P (dispatch router seen xs r w)
  unfolding dispatch
  dispatch_each [] each seen = plain _
  dispatch_each (x ∷ xs) each seen =
      let later = dispatch_each xs (λ y vars i. each y vars (there i)) in
      elim (Option-cases (router.match x.pattern r.path)) [
        | inl apart ↦ rw apart (later _)
        | inr (vars, fits) ↦ rw fits (elim (Bool-cases (bytes_eq r.method x.method)) [
          | inl same ↦ rw same (each x vars here fits ((bytes_eq_iff r.method x.method).0 same))
          | inr other ↦ rw other (later _)
        ])
      ]
