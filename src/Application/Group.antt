-- ===== src/Application/Group.antt =====
-- The group "routes": what it has of the values that have been made.
use audio_streaming_service.Application.Build.{Value, as_route, also, takes_routes}
use audio_streaming_service.Common.{
  ◌≡◌, refl, List, [], ◌∷◌, Option, none, some, ◌⊎◌, inl, inr, In, here, there,
}
use audio_streaming_service.Server.{Route}

In-also {ℓ} : {A : Type ℓ} (o : Option A) {x : A} {xs : List A} → In x xs → In x (also o xs)
In-also none i = i
In-also (some y) i = there i

also-cases {ℓ} :
    {A : Type ℓ} (o : Option A) {x : A} {xs : List A} → In x (also o xs) → (o ≡ some x) ⊎ In x xs
also-cases none i = inr i
also-cases (some y) here = inl refl
also-cases (some y) (there i) = inr i

module _ {W R : Type 0} where
  -- The group has the routes of the values, and no other.
  pub In-takes_routes :
      (made : List (Value W R)) {v : Value W R} {x : Route W}
      → In v made
      → as_route v ≡ some x
      → In x (takes_routes made)
  In-takes_routes [] i e = elim i [ ]
  In-takes_routes (v ∷ made) here e = rw e here
  In-takes_routes (u ∷ made) (there i) e = In-also (as_route u) (In-takes_routes made i e)

  pub takes_routes-In :
      (made : List (Value W R)) {x : Route W}
      → In x (takes_routes made)
      → (v : Value W R) × In v made × (as_route v ≡ some x)
  takes_routes-In [] i = elim i [ ]
  takes_routes-In (v ∷ made) i = elim (also-cases (as_route v) i) [
    | inl e ↦ (v, here, e)
    | inr j ↦ let (u, k, e) = takes_routes-In made j in (u, there k, e)
  ]
