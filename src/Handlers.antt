-- ===== src/Handlers.antt =====
-- core-api/server/handlers: requests and responses, and the three handlers.
pub mod Download
pub mod Json
pub mod Playback
pub mod Reads
pub mod Tracks
pub mod Upload
use audio_streaming_service.Common.{
  ℕ, List, [], ◌∷◌, Option, none, some, Bytes, codes, bytes_eq, Result, Exec, if◌then◌else◌,
}
use audio_streaming_service.Config.{UrlPackage}
use audio_streaming_service.Repository.{Uuid, Timestamptz}

-- An uploaded file: the multipart header's name and content type, and the result of reading it.
pub record FilePart : Type 0 where
  pub filename : Bytes
  pub content_type : Bytes
  pub content : Result Bytes

-- A parsed multipart form
pub record Form : Type 0 where
  pub values : List (Bytes × Bytes)
  pub files : List (Bytes × FilePart)

-- A request as net/http and the router hand it over. `query` has the parameters of the query that
-- can be read. `form` is what `ParseMultipartForm` makes of the request without a limit: `none` where
-- the query or the body is malformed. `form_size` is how many bytes of the body are read for that, up
-- to the end of the form, or of the body where it does not end.
pub record Request : Type 0 where
  pub method : Bytes
  pub path : Bytes
  pub query : List (Bytes × Bytes)
  pub vars : List (Bytes × Bytes)
  pub form_size : ℕ
  pub form : Option Form

pub record ErrorResponse : Type 0 where
  pub error : Bytes
  pub message : Bytes

pub record TrackUploadResponse : Type 0 where
  pub track_id : Bytes
  pub artist : Bytes
  pub title : Bytes
  pub original_filename : Bytes
  pub status : Bytes
  pub uploaded_at : Bytes

pub record TrackListItem : Type 0 where
  pub track_id : Bytes
  pub artist : Bytes
  pub title : Bytes
  pub original_filename : Bytes
  pub original_size : ℕ
  pub status : Bytes
  pub uploaded_at : Bytes

pub record TrackListResponse : Type 0 where
  pub items : List TrackListItem
  pub total : ℕ

pub record DownloadUrlResponse : Type 0 where
  pub track_id : Bytes
  pub original_filename : Bytes
  pub download_url : Bytes

-- core-api/server/routes/responses.go
pub record HealthResponse : Type 0 where
  pub status : Bytes

-- The value that the JSON encoder is given
pub data Body : Type 0 where
  empty : Body
  error_body : ErrorResponse → Body
  upload_body : TrackUploadResponse → Body
  tracks_body : TrackListResponse → Body
  download_body : DownloadUrlResponse → Body
  health_body : HealthResponse → Body

pub record Response : Type 0 where
  pub status : ℕ
  pub headers : List (Bytes × Bytes)
  pub body : Body

-- What the handlers use of code that is not in the repository: net/url, pgtype's UUID text and
-- its reader, the UTC time in RFC 3339, and crypto/rand.
pub record Packages (W : Type 0) : Type 0 where
  pub urls : UrlPackage
  pub uuid_string : Uuid → Bytes
  pub uuid_scan : Bytes → Result Uuid
  pub format_rfc3339 : Timestamptz → Bytes
  pub rand_read : ℕ → Exec W Bytes

abbrev pub json_response : ℕ → Body → Response
json_response status body = record {
  status = status;
  headers = (codes "Content-Type", codes "application/json") ∷ [];
  body = body;
}

-- `respondError`, the same method in each of the three handlers
abbrev pub respond_error : ℕ → Bytes → Bytes → Response
respond_error status code message =
    json_response status (error_body (record { error = code; message = message }))

abbrev pub internal_error : Bytes → Response
internal_error message = respond_error 500 (codes "internal_error") message

abbrev pub invalid_request : Bytes → Response
invalid_request message = respond_error 400 (codes "invalid_request") message

-- The first value of a key
abbrev pub first_value {ℓ} : {A : Type ℓ} → Bytes → List (Bytes × A) → Option A
first_value key [] = none
first_value key ((k, v) ∷ rest) = if bytes_eq k key then some v else first_value key rest

abbrev pub or_empty : Option Bytes → Bytes
or_empty none = []
or_empty (some v) = v
