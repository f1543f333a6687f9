-- ===== src/Common/Results.antt =====
-- A Go call `v, err := f(...)` that reads or writes the outside world `W`: the world afterwards
-- comes back beside the value or the error. An error is modelled by its kind, which `%w` keeps.

use mathlib.Core.Option.{Option, none, some}
use mathlib.Core.Path.{◌≡◌, refl}
use mathlib.Core.Logic.{◌⊎◌, inl, inr}

pub data Error : Type 0 where
  -- `pgx.ErrNoRows`
  no_rows : Error
  -- an error of the database, the object storage or the message broker
  service : Error
  -- `http.ErrNotSupported`
  not_supported : Error
  -- `fmt.Errorf` in `normalizeSegment`, `OriginalKey`, `validateAudioExtension`, `validateKey`
  invalid_segment invalid_filename unsupported_extension invalid_key : Error
  -- `fmt.Errorf("storage config is nil")`
  nil_config : Error
  -- `url.Parse`, `json.Marshal`, a column that does not fit its field
  bad_url bad_json bad_column : Error

pub data Result {ℓ} (V : Type ℓ) : Type ℓ where
  ok : V → Result V
  err : Error → Result V

abbrev pub Exec : Type 0 → Type 0 → Type 0
Exec W V = W → Result V × W

pub Result-cases {ℓ} :
    {V : Type ℓ} (r : Result V) → ((v : V) × (r ≡ ok v)) ⊎ ((e : Error) × (r ≡ err e))
Result-cases (err e) = inr (e, refl)
Result-cases (ok v) = inl (v, refl)

-- `if err != nil { return err }` behind a call, whose value is used or left
infixl 10 ◌>>=◌ ◌>>◌
abbrev pub ◌>>=◌ {ℓ κ} : {V : Type ℓ} {U : Type κ} → Result V → (V → Result U) → Result U
err e >>= next = err e
ok v >>= next = next v

abbrev pub ◌>>◌ {κ} : {U : Type κ} → Result (Unit {0}) → Result U → Result U
step >> next = step >>= (λ done. next)

-- A chain that succeeds has succeeded in its first step.
pub >>=-eq-ok {ℓ κ} :
    {V : Type ℓ} {U : Type κ} (m : Result V) (next : V → Result U) {u : U}
    → (m >>= next) ≡ ok u
    → (v : V) × (m ≡ ok v) × (next v ≡ ok u)
>>=-eq-ok (err e) next h = cc
>>=-eq-ok (ok v) next h = (v, refl, h)

pub Option-cases {ℓ} : {A : Type ℓ} (x : Option A) → (x ≡ none) ⊎ ((a : A) × (x ≡ some a))
Option-cases none = inl refl
Option-cases (some a) = inr (a, refl)
