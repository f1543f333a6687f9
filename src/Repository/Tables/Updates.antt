-- ===== src/Repository/Tables/Updates.antt =====
-- What is found in the table after an UPDATE ... WHERE id = $1.
use mathlib.Core.Option.{some-injective}
use audio_streaming_service.Common.{
  ◌≡◌, ◌≢◌, refl, ap, ◌∙◌, true, false, List, [], ◌∷◌, some, bytes_eq_iff, Bool-cases, inl, inr,
  arith, if◌then◌else◌,
}
use audio_streaming_service.Repository.{Uuid, Track}
use audio_streaming_service.Repository.Tables.{has_id, select_by_id, update_by_id}

module _ (change : Track → Track) (keeps : (t : Track) → (change t).id ≡ t.id) (id : Uuid) where
  has_id-change : (other : Uuid) (t : Track) → has_id other (change t) ≡ has_id other t
  has_id-change other t = rw (keeps t) refl

  -- The changed row is the one that is found under its id.
  pub select-update_same :
      (ts : List Track) {t : Track}
      → select_by_id id ts ≡ some t
      → select_by_id id (update_by_id change id ts) ≡ some (change t)
  unfolding select_by_id update_by_id
  select-update_same [] e = cc
  select-update_same (u ∷ us) e = elim (Bool-cases (has_id id u)) [
    | inl here ↦ rw here (
        rw (has_id-change id u ∙ here)
          (ap (λ x. some (change x)) (some-injective _ _ (rw here at e))))
    | inr there ↦ rw there (rw there (select-update_same us (rw there at e)))
  ]

  has_id_other :
      (other : Uuid) (t : Track)
      → other.bytes ≢ id.bytes
      → has_id id t ≡ true
      → has_id other t ≡ false
  has_id_other other t n here =
      ground (arith, bytes_eq_iff id.bytes t.id.bytes, bytes_eq_iff other.bytes t.id.bytes)

  -- Rows with other ids are found as before.
  pub select-update_other :
      (other : Uuid) (ts : List Track)
      → other.bytes ≢ id.bytes
      → select_by_id other (update_by_id change id ts) ≡ select_by_id other ts
  unfolding select_by_id update_by_id
  select-update_other other [] n = refl
  select-update_other other (u ∷ us) n = elim (Bool-cases (has_id id u)) [
    | inl here ↦ rw here (
        rw (has_id-change other u ∙ has_id_other other u n here)
          (rw (has_id_other other u n here) (select-update_other other us n)))
    | inr there ↦
        rw there (ap (λ x. if has_id other u then some u else x) (select-update_other other us n))
  ]
