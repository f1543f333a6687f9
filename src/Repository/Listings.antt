-- ===== src/Repository/Listings.antt =====
-- The three statements that list tracks: what `ListTracks`, `ListReadyTracks` and
-- `ListTracksByStatus` return.
use mathlib.Core.List.{Perm}
use mathlib.Core.Path.{subst}
use audio_streaming_service.Common.{
  ◌≡◌, ◌≢◌, ◌⊎◌, refl, sym, map, List, [], ◌∷◌, none, some, Error, Result, ok, err, Result-cases,
  inl, inr,
}
use audio_streaming_service.Repository.{Track, TrackStatus, track_status_ready, text}
use audio_streaming_service.Repository.Queries.{
  Rows, Dbtx, list_tracks_sql, list_ready_tracks_sql, list_tracks_by_status_sql, scan_tracks, many,
  list_tracks, list_ready_tracks, list_tracks_by_status,
}
use audio_streaming_service.Repository.Tables.{with_status}
use audio_streaming_service.Repository.Tables.Rows.{row_of, scan_tracks-map-row_of}
use audio_streaming_service.Services.{Observed, NewestFirst, Untouched, ListOutcome, IsDatabase}

-- The rows of `listTracks`, and those of `listReadyTracks`
abbrev pub all_rows : List Track → List Track
all_rows ts = ts

abbrev pub ready_rows : List Track → List Track
ready_rows ts = with_status track_status_ready ts

module _ {W : Type 0} (o : Observed W) where
  -- What is relied on of the database for the two statements that no handler runs
  pub record IsCatalogue (db : Dbtx W) : Type 0 where
    pub list_all : (w : W) → ListOutcome o (all_rows (o.tracks w)) w (db.query list_tracks_sql [] w)
    pub list_ready :
        (w : W) → ListOutcome o (ready_rows (o.tracks w)) w (db.query list_ready_tracks_sql [] w)

  -- The statement fails, or the connection is lost between two rows.
  abbrev pub IsCut : Result Rows × W → Type 0
  IsCut asked =
      ((e : Error) × (asked.0 ≡ err e))
      ⊎ ((rows : Rows) × (asked.0 ≡ ok rows) × (rows.failure ≢ none))

  -- What is returned of the answer `asked` of the database: exactly the rows that are wanted, newest
  -- first, or an error, if and only if the answer is cut short. Nothing has changed.
  pub data IsListed (wanted : List Track) (w : W) (asked : Result Rows × W)
      : Result (List Track) × W → Type 0 where
    failed :
        {e : Error} {w' : W} → IsCut asked → Untouched o w w' → IsListed wanted w asked (err e, w')
    listed :
        {w' : W} (ts : List Track)
        → ¬ IsCut asked
        → Perm ts wanted
        → NewestFirst ts
        → Untouched o w w'
        → IsListed wanted w asked (ok ts, w')

  many-lost :
      (rows : Rows) (w' : W) (e : Error)
      → rows.failure ≡ some e
      → (x : Error) × (many (ok rows, w') ≡ (err x, w'))
  many-lost rows w' e lost = elim (Result-cases (scan_tracks rows.fetched)) [
    | inl (ts, read) ↦ (e, rw read (rw lost refl))
    | inr (x, unread) ↦ (x, rw unread refl)
  ]

  many-IsListed :
      (wanted : List Track) (w : W) {asked : Result Rows × W}
      → ListOutcome o wanted w asked
      → IsListed wanted w asked (many asked)
  many-IsListed wanted w (ListOutcome.failed {e = e} same) = failed (inl (e, refl)) same
  many-IsListed wanted w (ListOutcome.broken {w' = w'} rows e lost same) =
      let (x, unread) = many-lost rows w' e lost in
      subst (IsListed wanted w (ok rows, w')) (sym unread)
        (failed (inr (rows, refl, λ whole. cc)) same)
  many-IsListed wanted w (ListOutcome.listed {w' = w'} ts perm newest stored same) =
      rw (scan_tracks-map-row_of ts stored) (listed ts (whole ts) perm newest same)
    where
      whole :
          (ts : List Track) → ¬ IsCut (ok (record { fetched = map row_of ts; failure = none }), w')
      whole ts (inl (e, failing)) = cc
      whole ts (inr (rows, given, lost)) = lost (cc)

  -- Where the database keeps its laws, each of the three calls returns exactly the rows that it is
  -- for (all, those that are ready, or those of a status), newest first, or an error, if and only if
  -- the statement fails or the connection is lost between two rows; and nothing is changed.
  pub list_tracks-IsListed :
      (db : Dbtx W)
      → IsDatabase o db
      → IsCatalogue db
      → (status : TrackStatus) (w : W)
      → IsListed (all_rows (o.tracks w)) w (db.query list_tracks_sql [] w) (list_tracks db w)
        × IsListed
            (ready_rows (o.tracks w))
            w
            (db.query list_ready_tracks_sql [] w)
            (list_ready_tracks db w)
        × IsListed
            (with_status status (o.tracks w))
            w
            (db.query list_tracks_by_status_sql (text status ∷ []) w)
            (list_tracks_by_status db status w)
  unfolding list_tracks list_ready_tracks list_tracks_by_status
  list_tracks-IsListed db database catalogue status w = (
    many-IsListed _ w (catalogue.list_all w),
    many-IsListed _ w (catalogue.list_ready w),
    many-IsListed _ w (database.list status w),
  )
