-- ===== src/Handlers/Download.antt =====
-- core-api/server/handlers/download.go
pub mod Answers
use audio_streaming_service.Common.{
  ℕ, Bool, true, false, List, [], ◌∷◌, Bytes, codes, bytes_eq, Result, ok, err, Error, no_rows,
  if◌then◌else◌,
}
use audio_streaming_service.Config.{Config}
use audio_streaming_service.Handlers.{
  Request, Response, Packages, download_body, json_response, respond_error, internal_error,
  invalid_request, first_value, or_empty,
}
use audio_streaming_service.Repository.{Track, Uuid}
use audio_streaming_service.Repository.Queries.{Dbtx, get_track_by_id}
use audio_streaming_service.Storage.{S3Storage}
use audio_streaming_service.TrackStorage.{presign_download}

pub record DownloadHandler (W : Type 0) : Type 0 where
  pub queries : Dbtx W
  pub tracks : S3Storage W
  pub cfg : Config

-- `NewDownloadHandler`
abbrev pub new_download_handler : {W : Type 0} → Config → Dbtx W → S3Storage W → DownloadHandler W
new_download_handler cfg queries tracks = record { queries = queries; tracks = tracks; cfg = cfg }

-- `errors.Is(err, pgx.ErrNoRows)`
abbrev is_no_rows : Error → Bool
is_no_rows no_rows = true
is_no_rows _ = false

abbrev pub track_not_found : Response
track_not_found = respond_error 404 (codes "not_found") (codes "track not found")

abbrev pub load_failure : Error → Response
load_failure e =
    if is_no_rows e then track_not_found else internal_error (codes "failed to load track")

module _ {W : Type 0} (pkg : Packages W) (h : DownloadHandler W) where
  abbrev pub download_response : Track → Bytes → Response
  download_response track url = json_response 200 (
      download_body (record {
        track_id = pkg.uuid_string track.id;
        original_filename = track.original_filename;
        download_url = url;
      }))

  unfoldable pub after_presign : Track → Result Bytes × W → Response × W
  after_presign track (ok url, w) = (download_response track url, w)
  after_presign track (err e, w) = (internal_error (codes "failed to generate download url"), w)

  unfoldable pub after_load : Result Track × W → Response × W
  after_load (ok track, w) =
      after_presign track
        (presign_download h.tracks track.original_object_key h.cfg.download_url_expires w)
  after_load (err e, w) = (load_failure e, w)

  unfoldable pub after_scan : Result Uuid → W → Response × W
  after_scan (ok id) w = after_load (get_track_by_id h.queries id w)
  after_scan (err e) w = (invalid_request (codes "invalid track_id"), w)

  abbrev pub checked_id : Bytes → W → Response × W
  checked_id raw w =
      if bytes_eq raw []
      then (invalid_request (codes "track_id is required"), w)
      else after_scan (pkg.uuid_scan raw) w

  -- `ServeHTTP`
  unfoldable pub download : Request → W → Response × W
  unfolding after_scan
  download r = checked_id (or_empty (first_value (codes "track_id") r.vars))
