-- ===== src/Repository.antt =====
-- core-api/repositories/models.go: the row types, and how columns are read into them.
pub mod Lifecycle
pub mod Listings
pub mod Pool
pub mod Queries
pub mod Tables
use audio_streaming_service.Common.{
  ℕ, Bool, true, false, ◌&&◌, List, [], ◌∷◌, Option, none, some, Bytes, codes, bytes_eq, Result, ok,
  err, bad_column, ◌>>=◌,
}

-- `TrackStatus` is a string with four constants.
abbrev pub TrackStatus : Type 0
TrackStatus = Bytes

abbrev pub track_status_pending : TrackStatus
track_status_pending = codes "pending"

abbrev pub track_status_processing : TrackStatus
track_status_processing = codes "processing"

abbrev pub track_status_ready : TrackStatus
track_status_ready = codes "ready"

abbrev pub track_status_failed : TrackStatus
track_status_failed = codes "failed"

-- `pgtype.UUID` and `pgtype.Timestamptz` (microseconds), which are not valid for NULL.
pub record Uuid : Type 0 where
  pub bytes : Bytes
  pub valid : Bool

pub record Timestamptz : Type 0 where
  pub time : ℕ
  pub valid : Bool

-- `HlsPlaylistKey`, a `pgtype.Text`, is `none` for NULL.
pub record Track : Type 0 where
  pub id : Uuid
  pub artist : Bytes
  pub title : Bytes
  pub original_filename : Bytes
  pub original_object_key : Bytes
  pub original_size : ℕ
  pub status : TrackStatus
  pub uploaded_at : Timestamptz
  pub updated_at : Timestamptz
  pub hls_playlist_key : Option Bytes

-- A value as the driver passes it: an argument of a statement, or a column of a row.
pub data Value : Type 0 where
  null : Value
  uuid : Bytes → Value
  text : Bytes → Value
  raw : Bytes → Value
  int8 : ℕ → Value
  timestamptz : ℕ → Value

-- `(*TrackStatus).Scan`
unfoldable pub scan_track_status : Value → Result TrackStatus
scan_track_status (raw s) = ok s
scan_track_status (text s) = ok s
scan_track_status _ = err bad_column

pub record NullTrackStatus : Type 0 where
  pub track_status : TrackStatus
  pub valid : Bool

abbrev valid_status : TrackStatus → NullTrackStatus
valid_status s = record { track_status = s; valid = true }

-- `(*NullTrackStatus).Scan`
unfoldable pub scan_null_track_status : Value → Result NullTrackStatus
unfolding scan_track_status
scan_null_track_status null = ok (record { track_status = []; valid = false })
scan_null_track_status v = do s ← scan_track_status v; ok (valid_status s)

abbrev status_value : Bool → TrackStatus → Value
status_value false s = null
status_value true s = text s

-- `NullTrackStatus.Value`
unfoldable pub null_track_status_value : NullTrackStatus → Value
null_track_status_value ns = status_value ns.valid ns.track_status

-- The driver's scans of the other column types.
abbrev pub scan_uuid : Value → Result Uuid
scan_uuid null = ok (record { bytes = []; valid = false })
scan_uuid (uuid b) = ok (record { bytes = b; valid = true })
scan_uuid _ = err bad_column

abbrev pub scan_string : Value → Result Bytes
scan_string (text s) = ok s
scan_string _ = err bad_column

abbrev pub scan_int64 : Value → Result ℕ
scan_int64 (int8 n) = ok n
scan_int64 _ = err bad_column

abbrev pub scan_timestamptz : Value → Result Timestamptz
scan_timestamptz null = ok (record { time = 0; valid = false })
scan_timestamptz (timestamptz t) = ok (record { time = t; valid = true })
scan_timestamptz _ = err bad_column

abbrev pub scan_text : Value → Result (Option Bytes)
scan_text null = ok none
scan_text (text s) = ok (some s)
scan_text _ = err bad_column
