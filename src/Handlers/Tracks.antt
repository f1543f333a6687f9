-- ===== src/Handlers/Tracks.antt =====
-- core-api/server/handlers/tracks.go
pub mod Answers
use audio_streaming_service.Common.{
  ℕ, Bool, true, false, List, [], ◌∷◌, map, length, Bytes, codes, bytes_eq, Result, ok, err,
  not_supported, if◌then◌else◌,
}
use audio_streaming_service.Handlers.{
  Request, Response, Packages, TrackListItem, tracks_body, json_response, internal_error,
  invalid_request, first_value, or_empty,
}
use audio_streaming_service.Repository.{
  Track, TrackStatus, track_status_pending, track_status_processing, track_status_ready,
  track_status_failed,
}
use audio_streaming_service.Repository.Queries.{Dbtx, list_tracks_by_status}
use audio_streaming_service.Std.Strings.{trim_space, is_one_of}

abbrev pub track_statuses : List TrackStatus
track_statuses =
    track_status_pending ∷ track_status_processing ∷ track_status_ready ∷ track_status_failed ∷ []

-- `parseTrackStatus`
unfoldable pub parse_track_status : Bytes → Result TrackStatus
parse_track_status status_raw =
    if bytes_eq status_raw []
    then ok track_status_ready
    else if is_one_of status_raw track_statuses
    then ok status_raw
    else err not_supported

module _ {W : Type 0} (pkg : Packages W) (queries : Dbtx W) where
  abbrev pub list_item : Track → TrackListItem
  list_item track = record {
    track_id = pkg.uuid_string track.id;
    artist = track.artist;
    title = track.title;
    original_filename = track.original_filename;
    original_size = track.original_size;
    status = track.status;
    uploaded_at = pkg.format_rfc3339 track.uploaded_at;
  }

  abbrev pub list_response : List TrackListItem → Response
  list_response items =
      json_response 200 (tracks_body (record { items = items; total = length items }))

  unfoldable pub after_list : Result (List Track) × W → Response × W
  after_list (ok tracks, w) = (list_response (map list_item tracks), w)
  after_list (err e, w) = (internal_error (codes "failed to list tracks"), w)

  unfoldable pub after_parse : Result TrackStatus → W → Response × W
  after_parse (ok status) w = after_list (list_tracks_by_status queries status w)
  after_parse (err e) w = (invalid_request (codes "invalid status value"), w)

  -- `ServeHTTP` of `TracksHandler`
  unfoldable pub tracks : Request → W → Response × W
  unfolding parse_track_status after_parse
  tracks r =
      after_parse
        (parse_track_status (trim_space (or_empty (first_value (codes "status") r.query))))
