-- ===== src/Handlers/Json.antt =====
-- The struct tags of core-api/server/handlers and core-api/server/routes/responses.go: the object that
-- package encoding/json makes of a body.
use audio_streaming_service.Common.{ℕ, List, [], ◌∷◌, map, Bytes, codes, bytes_eq, if◌then◌else◌}
use audio_streaming_service.Handlers.{
  ErrorResponse, TrackUploadResponse, TrackListItem, DownloadUrlResponse, HealthResponse, Body,
  empty, error_body, upload_body, tracks_body, download_body, health_body,
}

pub data Scalar : Type 0 where
  string : Bytes → Scalar
  integer : ℕ → Scalar

-- A member of an object is a scalar or an array of objects with scalars.
pub data Member : Type 0 where
  scalar : Scalar → Member
  array : List (List (Bytes × Scalar)) → Member

abbrev text_member : Bytes → Bytes → Bytes × Member
text_member name v = (name, scalar (string v))

-- `omitempty`
abbrev pub unless_empty : Bytes → Bytes → List (Bytes × Member)
unless_empty name v = if bytes_eq v [] then [] else text_member name v ∷ []

abbrev pub error_members : ErrorResponse → List (Bytes × Member)
error_members e = text_member (codes "error") e.error ∷ unless_empty (codes "message") e.message

abbrev pub upload_members : TrackUploadResponse → List (Bytes × Member)
upload_members b =
    text_member (codes "track_id") b.track_id
    ∷ text_member (codes "artist") b.artist
    ∷ text_member (codes "title") b.title
    ∷ text_member (codes "original_filename") b.original_filename
    ∷ text_member (codes "status") b.status
    ∷ text_member (codes "uploaded_at") b.uploaded_at
    ∷ []

abbrev pub item_members : TrackListItem → List (Bytes × Scalar)
item_members item =
    (codes "track_id", string item.track_id)
    ∷ (codes "artist", string item.artist)
    ∷ (codes "title", string item.title)
    ∷ (codes "original_filename", string item.original_filename)
    ∷ (codes "original_size", integer item.original_size)
    ∷ (codes "status", string item.status)
    ∷ (codes "uploaded_at", string item.uploaded_at)
    ∷ []

abbrev pub download_members : DownloadUrlResponse → List (Bytes × Member)
download_members b =
    text_member (codes "track_id") b.track_id
    ∷ text_member (codes "original_filename") b.original_filename
    ∷ text_member (codes "download_url") b.download_url
    ∷ []

abbrev pub health_members : HealthResponse → List (Bytes × Member)
health_members b = text_member (codes "status") b.status ∷ []

abbrev pub members : Body → List (Bytes × Member)
members empty = []
members (error_body e) = error_members e
members (upload_body b) = upload_members b
members (tracks_body b) =
    (codes "items", array (map item_members b.items))
    ∷ (codes "total", scalar (integer b.total))
    ∷ []
members (download_body b) = download_members b
members (health_body b) = health_members b
