-- ===== src/Repository/Tables/Rows.antt =====
-- Rows as the driver hands them over, and the laws of the table.
use mathlib.Core.List.{Mem, mem-cons_self}
use audio_streaming_service.Common.{
  ℕ, ◌≡◌, refl, Bool, true, false, List, [], ◌∷◌, none, Bytes, bytes_eq_iff, arith, ok, All, map,
  some, Bool-cases, inl, inr,
}
use audio_streaming_service.Repository.{
  Uuid, Track, Timestamptz, Value, null, text, int8, timestamptz,
}
use audio_streaming_service.Repository.Queries.{
  Row, CreateTrackParams, id_arg, text_arg, scan_track, scan_tracks,
}
use audio_streaming_service.Repository.Tables.{
  has_id, inserted, select_by_id, delete_by_id, valid_uuid, with_status,
}

abbrev time_column_of : Bool → ℕ → Value
time_column_of true t = timestamptz t
time_column_of false t = null

abbrev time_column : Timestamptz → Value
time_column t = time_column_of t.valid t.time

-- The columns of a track in the order that every statement lists them.
unfoldable pub row_of : Track → Row
row_of t =
    id_arg t.id
    ∷ text t.artist
    ∷ text t.title
    ∷ text t.original_filename
    ∷ text t.original_object_key
    ∷ int8 t.original_size
    ∷ text t.status
    ∷ time_column t.uploaded_at
    ∷ time_column t.updated_at
    ∷ text_arg t.hls_playlist_key
    ∷ []

-- The columns that the schema declares NOT NULL are not.
pub record IsStored (t : Track) : Type 0 where
  pub id : t.id.valid ≡ true
  pub uploaded_at : t.uploaded_at.valid ≡ true
  pub updated_at : t.updated_at.valid ≡ true

-- Reading the columns of a track that can be stored gives that track.
pub scan_track-row_of : (t : Track) → IsStored t → scan_track (row_of t) ≡ ok t
unfolding scan_track row_of
scan_track-row_of t s = ground arith

pub scan_tracks-map-row_of :
    (ts : List Track) → All IsStored ts → scan_tracks (map row_of ts) ≡ ok ts
unfolding scan_tracks
scan_tracks-map-row_of [] _ = refl
scan_tracks-map-row_of (t ∷ ts) (s, ss) =
    rw (scan_track-row_of t s) (rw (scan_tracks-map-row_of ts ss) refl)

pub inserted-IsStored :
    (p : CreateTrackParams) (id : Bytes) (now : ℕ) → IsStored (inserted p id now)
unfolding inserted
inserted-IsStored p id now = record { id = refl; uploaded_at = refl; updated_at = refl }

-- Deleting an id that no row has changes nothing.
pub delete_by_id_absent :
    (id : Uuid) (ts : List Track) → select_by_id id ts ≡ none → delete_by_id id ts ≡ ts
unfolding select_by_id delete_by_id
delete_by_id_absent id [] _ = refl
delete_by_id_absent id (t ∷ ts) h = ground (arith, delete_by_id_absent id ts)

-- Deleting the row that was inserted under a new id gives the table back.
pub delete_by_id-inserted :
    (p : CreateTrackParams) (id : Bytes) (now : ℕ) (ts : List Track)
    → select_by_id (valid_uuid id) ts ≡ none
    → delete_by_id (inserted p id now).id (inserted p id now ∷ ts) ≡ ts
unfolding delete_by_id inserted
delete_by_id-inserted p id now ts h =
    ground (arith, bytes_eq_iff id id, delete_by_id_absent (valid_uuid id) ts h)

-- What holds of every row holds of those that are left.
pub delete_by_id-All :
    (P : Track → Type 0) (id : Uuid) (ts : List Track) → All P ts → All P (delete_by_id id ts)
unfolding delete_by_id
delete_by_id-All P id [] _ = tt
delete_by_id-All P id (t ∷ ts) (p, ps) = ground (arith, delete_by_id-All P id ts ps)

-- What holds of every row without the id holds of those that are left.
pub delete_by_id-All_others :
    (P : Track → Type 0) (id : Uuid) (ts : List Track)
    → All (λ t. has_id id t ≡ false → P t) ts
    → All P (delete_by_id id ts)
unfolding delete_by_id
delete_by_id-All_others P id [] _ = tt
delete_by_id-All_others P id (t ∷ ts) (p, ps) = elim (Bool-cases (has_id id t)) [
  | inl here ↦ rw here (delete_by_id-All_others P id ts ps)
  | inr there ↦ rw there (p there, delete_by_id-All_others P id ts ps)
]

pub has_id-inserted :
    (p : CreateTrackParams) (id : Bytes) (now : ℕ)
    → has_id (inserted p id now).id (inserted p id now) ≡ true
unfolding inserted
has_id-inserted p id now = ground (arith, bytes_eq_iff id id)

-- The row that was inserted is found by its id.
pub select_by_id-inserted :
    (p : CreateTrackParams) (id : Bytes) (now : ℕ) (ts : List Track)
    → select_by_id (valid_uuid id) (inserted p id now ∷ ts) ≡ some (inserted p id now)
unfolding select_by_id inserted
select_by_id-inserted p id now ts = ground (arith, bytes_eq_iff id id)

-- A row is among those of its status.
pub Mem-with_status : (t : Track) (ts : List Track) → Mem t (with_status t.status (t ∷ ts))
unfolding with_status
Mem-with_status t ts = rw ((bytes_eq_iff t.status t.status).1 refl) mem-cons_self
