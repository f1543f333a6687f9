-- ===== src/Repository/Tables.antt =====
-- The table `tracks`, and what the statements of query_tracks.sql.go do with it. Where rows stand
-- in no order, the last one inserted is the first of the list.
pub mod Rows
pub mod Updates
use audio_streaming_service.Common.{
  ℕ, Bool, true, false, ◌&&◌, List, [], ◌∷◌, Option, none, some, Bytes, bytes_eq, if◌then◌else◌,
}
use audio_streaming_service.Repository.{
  Uuid, Track, TrackStatus, Timestamptz, track_status_ready, track_status_processing,
  track_status_failed,
}
use audio_streaming_service.Repository.Queries.{CreateTrackParams}

-- `id = $1` in SQL, which NULL on either side makes unknown
abbrev pub has_id : Uuid → Track → Bool
has_id id t = id.valid && (t.id.valid && bytes_eq id.bytes t.id.bytes)

-- `gen_random_uuid()` and `NOW()` as column values
abbrev pub valid_uuid : Bytes → Uuid
valid_uuid b = record { bytes = b; valid = true }

abbrev pub at_time : ℕ → Timestamptz
at_time t = record { time = t; valid = true }

-- The row that `createTrack` inserts: the columns that it does not name have their defaults.
unfoldable pub inserted : CreateTrackParams → Bytes → ℕ → Track
inserted p id now = record {
  id = valid_uuid id;
  artist = p.artist;
  title = p.title;
  original_filename = p.original_filename;
  original_object_key = p.original_object_key;
  original_size = p.original_size;
  status = p.status;
  uploaded_at = at_time now;
  updated_at = at_time now;
  hls_playlist_key = none;
}

-- WHERE id = $1 LIMIT 1
unfoldable pub select_by_id : Uuid → List Track → Option Track
select_by_id id [] = none
select_by_id id (t ∷ ts) = if has_id id t then some t else select_by_id id ts

-- DELETE ... WHERE id = $1
unfoldable pub delete_by_id : Uuid → List Track → List Track
delete_by_id id [] = []
delete_by_id id (t ∷ ts) = let rest = delete_by_id id ts in if has_id id t then rest else t ∷ rest

-- UPDATE ... WHERE id = $1
unfoldable pub update_by_id : (Track → Track) → Uuid → List Track → List Track
update_by_id change id [] = []
update_by_id change id (t ∷ ts) = (if has_id id t then change t else t) ∷ update_by_id change id ts

-- The SET clauses of `markTrackFailed`, `markTrackProcessing` and `markTrackReady`
unfoldable pub set_status : TrackStatus → ℕ → Track → Track
set_status status now t = record t { status = status; updated_at = at_time now }

unfoldable pub set_ready : Option Bytes → ℕ → Track → Track
set_ready key now t = record t {
  status = track_status_ready;
  hls_playlist_key = key;
  updated_at = at_time now;
}

-- WHERE status = $1
unfoldable pub with_status : TrackStatus → List Track → List Track
with_status status [] = []
with_status status (t ∷ ts) =
    let rest = with_status status ts in if bytes_eq t.status status then t ∷ rest else rest
