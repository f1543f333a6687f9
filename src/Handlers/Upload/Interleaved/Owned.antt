-- ===== src/Handlers/Upload/Interleaved/Owned.antt =====
-- The row that a request has inserted is its own until it is answered: the calls of the others
-- neither delete it nor give its id to another row.
use audio_streaming_service.Common.{
  ℕ, ◌≡◌, ◌≢◌, refl, sym, ap, ◌∙◌, true, false, List, [], ◌∷◌, none, some, Bytes, bytes_eq_iff, All,
  All-map, In, here, there, All-In, Bool-cases, inl, inr, arith,
}
use audio_streaming_service.Handlers.Upload.Interleaved.{holder}
use audio_streaming_service.Handlers.Upload.Steps.{
  Progress, arrived, drawing, storing, inserting, publishing, deleting_row, deleting_object,
  answered,
}
use audio_streaming_service.Repository.{Track, Uuid}
use audio_streaming_service.Repository.Queries.{CreateTrackParams}
use audio_streaming_service.Repository.Tables.{
  has_id, inserted, delete_by_id, select_by_id, valid_uuid,
}
use audio_streaming_service.Repository.Tables.Rows.{delete_by_id-All}
use audio_streaming_service.Services.{Observed}

In-delete_by_id :
    (id : Uuid) (ts : List Track) {t : Track}
    → In t ts
    → has_id id t ≡ false
    → In t (delete_by_id id ts)
unfolding delete_by_id
In-delete_by_id id [] i e = elim i [ ]
In-delete_by_id id (t ∷ ts) here e = rw e here
In-delete_by_id id (u ∷ ts) (there i) e = elim (Bool-cases (has_id id u)) [
  | inl del ↦ rw del (In-delete_by_id id ts i e)
  | inr left ↦ rw left (there (In-delete_by_id id ts i e))
]

-- A row of the table is found under its id.
In-select_by_id :
    (id : Uuid) (ts : List Track) {t : Track}
    → In t ts
    → has_id id t ≡ true
    → select_by_id id ts ≢ none
unfolding select_by_id
In-select_by_id id [] i e = elim i [ ]
In-select_by_id id (t ∷ ts) here e = rw e (λ e'. cc)
In-select_by_id id (u ∷ ts) (there i) e = elim (Bool-cases (has_id id u)) [
  | inl found ↦ rw found (λ e'. cc)
  | inr other ↦ rw other (In-select_by_id id ts i e)
]

-- An id that is not found is no row's.
select_by_id-none :
    (id : Uuid) (ts : List Track) → select_by_id id ts ≡ none → All (λ t. has_id id t ≢ true) ts
unfolding select_by_id
select_by_id-none id [] e = tt
select_by_id-none id (t ∷ ts) e = elim (Bool-cases (has_id id t)) [
  | inl found ↦ let e' : some t ≡ none = rw found at e in absurd (let e'' : ⊥ = cc in e'')
  | inr other ↦ ((λ found. cc (found, other)), select_by_id-none id ts (rw other at e))
]

-- An id that one row has and a new row gets is the id of both.
has_id-inserted_other :
    (p : CreateTrackParams) (id : Bytes) (now : ℕ) (t : Track)
    → has_id t.id (inserted p id now) ≡ true
    → has_id (valid_uuid id) t ≡ true
unfolding inserted
has_id-inserted_other p id now t e =
    ground (arith, bytes_eq_iff t.id.bytes id, bytes_eq_iff id t.id.bytes)

module _ {W : Type 0} (o : Observed W) where
  -- The rows with the id of `t` have its key.
  abbrev pub OwnId : Track → W → Type 0
  OwnId t w =
      All (λ u. has_id t.id u ≡ true → u.original_object_key ≡ t.original_object_key) (o.tracks w)

  abbrev pub IsOwn : Track → Bytes → W → Type 0
  IsOwn t key w = (t.original_object_key ≡ key) × In t (o.tracks w) × OwnId t w

  abbrev pub Owns : Progress → W → Type 0
  Owns (arrived r) w = Unit
  Owns (drawing u) w = Unit
  Owns (storing u id) w = Unit
  Owns (inserting u s) w = Unit
  Owns (publishing t key) w = IsOwn t key w
  Owns (deleting_row t key) w = IsOwn t key w
  Owns (deleting_object x key) w = Unit
  Owns (answered x) w = Unit

  -- The rows with other keys stay, and keep their ids to themselves.
  pub record Spares (key : Bytes) (w w' : W) : Type 0 where
    pub row : (t : Track) → t.original_object_key ≢ key → In t (o.tracks w) → In t (o.tracks w')
    pub own : (t : Track) → t.original_object_key ≢ key → In t (o.tracks w) → OwnId t w → OwnId t w'

  pub Spares-inserted :
      (p : CreateTrackParams) (id : Bytes) (now : ℕ) {w w' : W}
      → select_by_id (valid_uuid id) (o.tracks w) ≡ none
      → o.tracks w' ≡ inserted p id now ∷ o.tracks w
      → Spares p.original_object_key w w'
  Spares-inserted p id now {w} fresh more = record {
    row = λ t n i. rw more (there i);
    own = λ t n i own. rw more (
      (λ e. absurd (
          In-select_by_id (valid_uuid id) (o.tracks w) i (has_id-inserted_other p id now t e)
            fresh)),
      own,
    );
  }

  pub inserted-IsOwn :
      (p : CreateTrackParams) (id : Bytes) (now : ℕ) {w w' : W}
      → select_by_id (valid_uuid id) (o.tracks w) ≡ none
      → o.tracks w' ≡ inserted p id now ∷ o.tracks w
      → IsOwn (inserted p id now) p.original_object_key w'
  unfolding inserted
  inserted-IsOwn p id now {w} fresh more = (
    refl,
    rw more here,
    rw more (
      (λ e. refl),
      All-map (λ u other e. absurd (other e)) (o.tracks w)
          (select_by_id-none (valid_uuid id) (o.tracks w) fresh),
    ),
  )

  pub Spares-deleted :
      (t : Track) (key : Bytes) {w w' : W}
      → IsOwn t key w
      → o.tracks w' ≡ delete_by_id t.id (o.tracks w)
      → Spares key w w'
  Spares-deleted t key {w} (named, there_is, own) less = record {
    row = λ u n i. elim (Bool-cases (has_id t.id u)) [
      | inl same ↦ absurd (n (All-In _ (o.tracks w) i own same ∙ named))
      | inr other ↦ rw less (In-delete_by_id t.id (o.tracks w) i other)
    ];
    own = λ u n i own'. rw less (delete_by_id-All _ t.id (o.tracks w) own');
  }

  pub Owns-same : {w w' : W} → o.tracks w' ≡ o.tracks w → (q : Progress) → Owns q w → Owns q w'
  Owns-same same (arrived r) f = tt
  Owns-same same (drawing u) f = tt
  Owns-same same (storing u id) f = tt
  Owns-same same (inserting u s) f = tt
  Owns-same same (publishing t key) f = rw same f
  Owns-same same (deleting_row t key) f = rw same f
  Owns-same same (deleting_object x key) f = tt
  Owns-same same (answered x) f = tt

  IsOwn-Spares :
      {key : Bytes} {w w' : W}
      → Spares key w w'
      → (t : Track) (k : Bytes) → some k ≢ some key
      → IsOwn t k w
      → IsOwn t k w'
  IsOwn-Spares spares t k n (named, i, own) =
      let n' : t.original_object_key ≢ _ = λ e. n (ap some (sym named ∙ e)) in
      (named, spares.row t n' i, spares.own t n' i own)

  pub Owns-Spares :
      {key : Bytes} {w w' : W}
      → Spares key w w'
      → (q : Progress) → holder q ≢ some key
      → Owns q w
      → Owns q w'
  Owns-Spares spares (arrived r) n f = tt
  Owns-Spares spares (drawing u) n f = tt
  Owns-Spares spares (storing u id) n f = tt
  Owns-Spares spares (inserting u s) n f = tt
  Owns-Spares spares (publishing t key) n f = IsOwn-Spares spares t key n f
  Owns-Spares spares (deleting_row t key) n f = IsOwn-Spares spares t key n f
  Owns-Spares spares (deleting_object x key) n f = tt
  Owns-Spares spares (answered x) n f = tt
