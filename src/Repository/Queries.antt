-- ===== src/Repository/Queries.antt =====
-- core-api/repositories/db.go and query_tracks.sql.go: the statements, and the methods that run
-- them and read the rows.
use audio_streaming_service.Common.{
  ℕ, List, [], ◌∷◌, Option, none, some, Bytes, Error, Result, ok, err, Exec, bad_column, ◌>>=◌,
}
use audio_streaming_service.Repository.{
  TrackStatus, Uuid, Track, Value, uuid, text, int8, null, scan_track_status, scan_uuid,
  scan_string, scan_int64, scan_timestamptz, scan_text,
}
use audio_streaming_service.Common.{Bool, true, false}

-- The SQL constants, one for each statement of query_tracks.sql.
pub data Statement : Type 0 where
  -- INSERT INTO tracks (artist, title, original_filename, original_object_key, original_size,
  -- status) VALUES ($1, $2, $3, $4, $5, $6) RETURNING all columns
  create_track_sql : Statement
  -- DELETE FROM tracks WHERE id = $1
  delete_track_by_id_sql : Statement
  -- SELECT all columns FROM tracks WHERE id = $1 LIMIT 1
  get_track_by_id_sql : Statement
  -- SELECT all columns FROM tracks WHERE status = 'ready' ORDER BY uploaded_at DESC
  list_ready_tracks_sql : Statement
  -- SELECT all columns FROM tracks ORDER BY uploaded_at DESC
  list_tracks_sql : Statement
  -- SELECT all columns FROM tracks WHERE status = $1::track_status ORDER BY uploaded_at DESC
  list_tracks_by_status_sql : Statement
  -- UPDATE tracks SET status = 'failed', updated_at = NOW() WHERE id = $1 RETURNING all columns
  mark_track_failed_sql : Statement
  -- UPDATE tracks SET status = 'processing', updated_at = NOW() WHERE id = $1 RETURNING all columns
  mark_track_processing_sql : Statement
  -- UPDATE tracks SET status = 'ready', hls_playlist_key = $2, updated_at = NOW() WHERE id = $1
  -- RETURNING all columns
  mark_track_ready_sql : Statement

abbrev pub Row : Type 0
Row = List Value

-- `pgx.Rows`: the rows that `Next` steps through, and what `Err` returns behind the last.
pub record Rows : Type 0 where
  pub fetched : List Row
  pub failure : Option Error

-- `DBTX`. `query_row` is QueryRow up to the point where `Scan` has the row or its error, which is
-- `no_rows` where the statement gives no row.
pub record Dbtx (W : Type 0) : Type 0 where
  pub exec : Statement → List Value → Exec W (Unit {0})
  pub query : Statement → List Value → Exec W Rows
  pub query_row : Statement → List Value → Exec W Row

-- `NewQueries` and `New`: a `Queries` holds a `DBTX` and nothing else.
abbrev pub new_queries : {W : Type 0} → Dbtx W → Dbtx W
new_queries db = db

-- `WithTx`: the same statements over a transaction
abbrev with_tx : {W : Type 0} → Dbtx W → Dbtx W → Dbtx W
with_tx queries tx = tx

pub record CreateTrackParams : Type 0 where
  pub artist : Bytes
  pub title : Bytes
  pub original_filename : Bytes
  pub original_object_key : Bytes
  pub original_size : ℕ
  pub status : TrackStatus

pub record MarkTrackReadyParams : Type 0 where
  pub id : Uuid
  pub hls_playlist_key : Option Bytes

-- An id or a text that is not valid is sent as NULL.
abbrev id_arg_of : Bool → Bytes → Value
id_arg_of true b = uuid b
id_arg_of false b = null

abbrev pub id_arg : Uuid → Value
id_arg id = id_arg_of id.valid id.bytes

abbrev pub text_arg : Option Bytes → Value
text_arg none = null
text_arg (some s) = text s

abbrev pub create_args : CreateTrackParams → List Value
create_args p =
    text p.artist
    ∷ text p.title
    ∷ text p.original_filename
    ∷ text p.original_object_key
    ∷ int8 p.original_size
    ∷ text p.status
    ∷ []

-- `row.Scan` into the fields of a `Track`
unfoldable pub scan_track : Row → Result Track
unfolding scan_track_status
scan_track (c0 ∷ c1 ∷ c2 ∷ c3 ∷ c4 ∷ c5 ∷ c6 ∷ c7 ∷ c8 ∷ c9 ∷ []) = do
  id ← scan_uuid c0
  artist ← scan_string c1
  title ← scan_string c2
  original_filename ← scan_string c3
  original_object_key ← scan_string c4
  original_size ← scan_int64 c5
  status ← scan_track_status c6
  uploaded_at ← scan_timestamptz c7
  updated_at ← scan_timestamptz c8
  hls_playlist_key ← scan_text c9
  ok (record {
    id = id;
    artist = artist;
    title = title;
    original_filename = original_filename;
    original_object_key = original_object_key;
    original_size = original_size;
    status = status;
    uploaded_at = uploaded_at;
    updated_at = updated_at;
    hls_playlist_key = hls_playlist_key;
  })
scan_track _ = err bad_column

-- `for rows.Next() { ... }`
unfoldable pub scan_tracks : List Row → Result (List Track)
unfolding scan_track
scan_tracks [] = ok []
scan_tracks (row ∷ rows) = do track ← scan_track row; tracks ← scan_tracks rows; ok (track ∷ tracks)

abbrev failed_or : Option Error → List Track → Result (List Track)
failed_or none tracks = ok tracks
failed_or (some e) tracks = err e

abbrev pub collect : Rows → Result (List Track)
collect rows = do tracks ← scan_tracks rows.fetched; failed_or rows.failure tracks

module _ {W : Type 0} where
  -- What the methods return of a row, or of rows, or of an error.
  abbrev pub one : Result Row × W → Result Track × W
  one (r, w) = ((r >>= scan_track), w)

  abbrev pub many : Result Rows × W → Result (List Track) × W
  many (r, w) = ((r >>= collect), w)

module _ {W : Type 0} (db : Dbtx W) where
  unfoldable pub create_track : CreateTrackParams → Exec W Track
  create_track arg w = one (db.query_row create_track_sql (create_args arg) w)

  unfoldable pub delete_track_by_id : Uuid → Exec W (Unit {0})
  delete_track_by_id id = db.exec delete_track_by_id_sql (id_arg id ∷ [])

  unfoldable pub get_track_by_id : Uuid → Exec W Track
  get_track_by_id id w = one (db.query_row get_track_by_id_sql (id_arg id ∷ []) w)

  unfoldable pub list_ready_tracks : Exec W (List Track)
  list_ready_tracks w = many (db.query list_ready_tracks_sql [] w)

  unfoldable pub list_tracks : Exec W (List Track)
  list_tracks w = many (db.query list_tracks_sql [] w)

  unfoldable pub list_tracks_by_status : TrackStatus → Exec W (List Track)
  list_tracks_by_status status w = many (db.query list_tracks_by_status_sql (text status ∷ []) w)

  unfoldable pub mark_track_failed : Uuid → Exec W Track
  mark_track_failed id w = one (db.query_row mark_track_failed_sql (id_arg id ∷ []) w)

  unfoldable pub mark_track_processing : Uuid → Exec W Track
  mark_track_processing id w = one (db.query_row mark_track_processing_sql (id_arg id ∷ []) w)

  unfoldable pub mark_track_ready : MarkTrackReadyParams → Exec W Track
  mark_track_ready arg w =
      one (db.query_row mark_track_ready_sql (id_arg arg.id ∷ text_arg arg.hls_playlist_key ∷ []) w)
