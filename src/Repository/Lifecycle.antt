-- ===== src/Repository/Lifecycle.antt =====
-- The three statements that change a track's status: what `MarkTrackFailed`,
-- `MarkTrackProcessing` and `MarkTrackReady` return, and what they do to the table.
use mathlib.Core.Path.{subst}
use audio_streaming_service.Common.{
  ℕ, ◌≡◌, ◌≢◌, refl, sym, [], ◌∷◌, Option, none, some, Bytes, codes, Error, no_rows, Result, ok,
  err,
}
use audio_streaming_service.Repository.{
  Uuid, Track, TrackStatus, track_status_failed, track_status_processing, track_status_ready,
}
use audio_streaming_service.Repository.Queries.{
  Row, Dbtx, mark_track_failed_sql, mark_track_processing_sql, mark_track_ready_sql, id_arg,
  text_arg, one, mark_track_failed, mark_track_processing, mark_track_ready,
}
use audio_streaming_service.Repository.Tables.{select_by_id, update_by_id, set_status, set_ready}
use audio_streaming_service.Repository.Tables.Rows.{row_of, IsStored, scan_track-row_of}
use audio_streaming_service.Repository.Tables.Updates.{select-update_same, select-update_other}
use audio_streaming_service.Services.{Observed, SameObjects, Untouched, Retabled}

-- Everything that the upload has set is the same.
pub record SameUpload (t u : Track) : Type 0 where
  pub id : u.id ≡ t.id
  pub artist : u.artist ≡ t.artist
  pub title : u.title ≡ t.title
  pub original_filename : u.original_filename ≡ t.original_filename
  pub original_object_key : u.original_object_key ≡ t.original_object_key
  pub original_size : u.original_size ≡ t.original_size
  pub uploaded_at : u.uploaded_at ≡ t.uploaded_at

module _ {W : Type 0} (o : Observed W) where
  -- An UPDATE ... WHERE id = $1 RETURNING
  pub data UpdateOutcome (change : ℕ → Track → Track) (id : Uuid) (w : W)
      : Result Row × W → Type 0 where
    failed :
        {e : Error} {w' : W}
        → e ≢ no_rows
        → Untouched o w w'
        → UpdateOutcome change id w (err e, w')
    missing :
        {w' : W}
        → select_by_id id (o.tracks w) ≡ none
        → Untouched o w w'
        → UpdateOutcome change id w (err no_rows, w')
    done :
        {w' : W} (t : Track) (now : ℕ)
        → select_by_id id (o.tracks w) ≡ some t
        → IsStored t
        → Retabled o (update_by_id (change now) id (o.tracks w)) w w'
        → UpdateOutcome change id w (ok (row_of (change now t)), w')

  -- What is relied on of the database for these statements
  pub record IsUpdatable (db : Dbtx W) : Type 0 where
    pub fail :
        (id : Uuid) (w : W)
        → UpdateOutcome
            (set_status track_status_failed)
            id
            w
            (db.query_row mark_track_failed_sql (id_arg id ∷ []) w)
    pub process :
        (id : Uuid) (w : W)
        → UpdateOutcome
            (set_status track_status_processing)
            id
            w
            (db.query_row mark_track_processing_sql (id_arg id ∷ []) w)
    pub publish :
        (id : Uuid) (key : Option Bytes) (w : W)
        → UpdateOutcome
            (set_ready key)
            id
            w
            (db.query_row mark_track_ready_sql (id_arg id ∷ text_arg key ∷ []) w)

  -- The track as it is found before and after, and what has not changed.
  pub record IsRemarked (id : Uuid) (status : TrackStatus) (key : Track → Option Bytes)
      (new : Track) (w w' : W) : Type 0 where
    pub old : Track
    pub before : select_by_id id (o.tracks w) ≡ some old
    pub after : select_by_id id (o.tracks w') ≡ some new
    pub has_status : new.status ≡ status
    pub hls_playlist_key : new.hls_playlist_key ≡ key old
    pub same_upload : SameUpload old new
    pub others :
        (other : Uuid)
        → other.bytes ≢ id.bytes
        → select_by_id other (o.tracks w') ≡ select_by_id other (o.tracks w)
    pub objects : SameObjects o w w'
    pub jobs : o.jobs w' ≡ o.jobs w

  pub data MarkAnswer (id : Uuid) (status : TrackStatus) (key : Track → Option Bytes) (w : W)
      : Result Track × W → Type 0 where
    failed :
        {e : Error} {w' : W}
        → e ≢ no_rows
        → Untouched o w w'
        → MarkAnswer id status key w (err e, w')
    missing :
        {w' : W}
        → select_by_id id (o.tracks w) ≡ none
        → Untouched o w w'
        → MarkAnswer id status key w (err no_rows, w')
    marked :
        {w' : W} {new : Track}
        → IsRemarked id status key new w w'
        → MarkAnswer id status key w (ok new, w')

  -- A SET clause that sets the status, the playlist and the time of the update.
  record Sets (status : TrackStatus) (key : Track → Option Bytes) (change : ℕ → Track → Track)
      : Type 0 where
    pub same : (now : ℕ) (t : Track) → SameUpload t (change now t)
    pub has_status : (now : ℕ) (t : Track) → (change now t).status ≡ status
    pub hls_playlist_key : (now : ℕ) (t : Track) → (change now t).hls_playlist_key ≡ key t
    pub stored : (now : ℕ) (t : Track) → IsStored t → IsStored (change now t)

  set_status-Sets :
      (status : TrackStatus) → Sets status (λ t. t.hls_playlist_key) (set_status status)
  unfolding set_status
  set_status-Sets status = record {
    same = λ now t. record {
      id = refl;
      artist = refl;
      title = refl;
      original_filename = refl;
      original_object_key = refl;
      original_size = refl;
      uploaded_at = refl;
    };
    has_status = λ now t. refl;
    hls_playlist_key = λ now t. refl;
    stored = λ now t s. record { id = s.id; uploaded_at = s.uploaded_at; updated_at = refl };
  }

  set_ready-Sets : (key : Option Bytes) → Sets track_status_ready (λ t. key) (set_ready key)
  unfolding set_ready
  set_ready-Sets key = record {
    same = λ now t. record {
      id = refl;
      artist = refl;
      title = refl;
      original_filename = refl;
      original_object_key = refl;
      original_size = refl;
      uploaded_at = refl;
    };
    has_status = λ now t. refl;
    hls_playlist_key = λ now t. refl;
    stored = λ now t s. record { id = s.id; uploaded_at = s.uploaded_at; updated_at = refl };
  }

  one-MarkAnswer :
      {status : TrackStatus} {key : Track → Option Bytes} {change : ℕ → Track → Track}
      → Sets status key change
      → (id : Uuid) (w : W) {q : Result Row × W} → UpdateOutcome change id w q
      → MarkAnswer id status key w (one q)
  one-MarkAnswer sets id w (UpdateOutcome.failed other same) = MarkAnswer.failed other same
  one-MarkAnswer sets id w (UpdateOutcome.missing gone same) = MarkAnswer.missing gone same
  one-MarkAnswer {status} {key} {change} sets id w
        (UpdateOutcome.done {w' = w'} t now there s table) =
      subst (λ r. MarkAnswer id status key w (r, w'))
        (sym (scan_track-row_of (change now t) (sets.stored now t s)))
        (MarkAnswer.marked (record {
          old = t;
          before = there;
          after =
              rw table.tracks
                (select-update_same (change now) (λ u. (sets.same now u).id) id (o.tracks w) there);
          has_status = sets.has_status now t;
          hls_playlist_key = sets.hls_playlist_key now t;
          same_upload = sets.same now t;
          others = λ other n. rw table.tracks (
              select-update_other (change now) (λ u. (sets.same now u).id) id other (o.tracks w) n);
          objects = table.objects;
          jobs = table.jobs;
        }))

  -- Where the database updates rows as the statements say, each of the three calls finds the row
  -- of the id and returns it with the new status, and the playlist key for `ready` only, all else
  -- of the upload and every other row kept; or it reports that there is no such row; or it fails
  -- and changes nothing.
  pub mark_track-MarkAnswer :
      (db : Dbtx W)
      → IsUpdatable db
      → (id : Uuid) (key : Option Bytes) (w : W)
      → MarkAnswer id (codes "failed") (λ t. t.hls_playlist_key) w (mark_track_failed db id w)
        × MarkAnswer id
            (codes "processing")
            (λ t. t.hls_playlist_key)
            w
            (mark_track_processing db id w)
        × MarkAnswer id
            (codes "ready")
            (λ t. key)
            w
            (mark_track_ready db (record { id = id; hls_playlist_key = key }) w)
  unfolding mark_track_failed mark_track_processing mark_track_ready
  mark_track-MarkAnswer db laws id key w = (
    one-MarkAnswer (set_status-Sets track_status_failed) id w (laws.fail id w),
    one-MarkAnswer (set_status-Sets track_status_processing) id w (laws.process id w),
    one-MarkAnswer (set_ready-Sets key) id w (laws.publish id key w),
  )
