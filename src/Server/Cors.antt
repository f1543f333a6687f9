-- ===== src/Server/Cors.antt =====
-- What the CORS wrapper adds to a handler.
use audio_streaming_service.Common.{
  ◌≡◌, ◌≢◌, refl, ◌++◌, List, [], ◌∷◌, some, All, Bytes, codes, bytes_eq, bytes_eq_iff, false,
  Bool-cases, ◌⊎◌, inl, inr,
}
use audio_streaming_service.Handlers.{Request, Response, empty, first_value}
use audio_streaming_service.Server.{Handler, cors_headers, with_permissive_cors}

-- What a browser needs to see in an answer, to let a page of any origin send it any of the methods
-- with any header, and read any header of what comes back.
pub record IsPermitted (x : Response) : Type 0 where
  pub origin : first_value (codes "Access-Control-Allow-Origin") x.headers ≡ some (codes "*")
  pub methods :
      first_value (codes "Access-Control-Allow-Methods") x.headers
      ≡ some (codes "GET, POST, PUT, PATCH, DELETE, OPTIONS")
  pub headers : first_value (codes "Access-Control-Allow-Headers") x.headers ≡ some (codes "*")
  pub exposed : first_value (codes "Access-Control-Expose-Headers") x.headers ≡ some (codes "*")

-- A header that is none of these
abbrev pub IsOther : Bytes → Type 0
IsOther name =
    All (λ n. n ≢ name)
      (codes "Access-Control-Allow-Origin"
        ∷ codes "Access-Control-Allow-Methods"
        ∷ codes "Access-Control-Allow-Headers"
        ∷ codes "Access-Control-Expose-Headers"
        ∷ [])

ne-eq-false : (s t : Bytes) → s ≢ t → bytes_eq s t ≡ false
ne-eq-false s t n = elim (Bool-cases (bytes_eq s t)) [
  | inl e ↦ absurd (n ((bytes_eq_iff s t).0 e))
  | inr e ↦ e
]

-- Any other header is looked up behind them.
first_value-cors_headers :
    (name : Bytes) (rest : List (Bytes × Bytes))
    → IsOther name
    → first_value name (cors_headers ++ rest) ≡ first_value name rest
first_value-cors_headers name rest (a, (b, (c, (d, _)))) =
    rw (ne-eq-false _ name a)
      (rw (ne-eq-false _ name b) (rw (ne-eq-false _ name c) (rw (ne-eq-false _ name d) refl)))

-- Every answer begins with headers that let a page of any origin send the six methods with any header
-- and read any header. A preflight request is answered 204 without a body, and
-- reaches no handler; any other keeps the status, the body, the effects and all other headers of
-- the handler.
pub with_permissive_cors_lem :
    {W : Type 0} (next : Handler W) (r : Request) (w : W) (name : Bytes)
    → IsOther name
    → let q = with_permissive_cors next r w in
      IsPermitted q.0
      × (((r.method ≡ codes "OPTIONS") × (q.0.status ≡ 204) × (q.0.body ≡ empty) × (q.1 ≡ w))
          ⊎ ((r.method ≢ codes "OPTIONS")
              × (q.0.status ≡ (next r w).0.status)
              × (q.0.body ≡ (next r w).0.body)
              × (first_value name q.0.headers ≡ first_value name (next r w).0.headers)
              × (q.1 ≡ (next r w).1)))
unfolding with_permissive_cors bytes_eq
with_permissive_cors_lem next r w name other =
    elim (Bool-cases (bytes_eq r.method (codes "OPTIONS"))) [
      | inl preflight ↦ rw preflight (
        record { origin = refl; methods = refl; headers = refl; exposed = refl },
        inl ((bytes_eq_iff r.method (codes "OPTIONS")).0 preflight, refl, refl, refl),
      )
      | inr another ↦ rw another (
        record { origin = refl; methods = refl; headers = refl; exposed = refl },
        inr (
          λ e. cc (another, (bytes_eq_iff r.method (codes "OPTIONS")).1 e),
          refl,
          refl,
          first_value-cors_headers name (next r w).0.headers other,
          refl,
        ),
      )
    ]
