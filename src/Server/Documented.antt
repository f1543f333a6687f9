-- ===== src/Server/Documented.antt =====
-- core-api/openapi.yaml: the statuses that it lists for each operation, and the schema of the body
-- that goes with each.
use audio_streaming_service.Common.{ℕ, ◌≡◌, List, [], ◌∷◌, ◌++◌, length, Bytes, codes, ◌⊎◌}
use audio_streaming_service.Handlers.{
  Request, Response, TrackUploadResponse, TrackListItem, DownloadUrlResponse, upload_body,
  tracks_body, download_body, health_body, json_response, respond_error,
}
use audio_streaming_service.Std.Path.Elements.{IsElement}

-- The responses BadRequest, NotFound, PayloadTooLarge, UnsupportedMediaType and
-- InternalServerError: a status, and the `error` of the body
abbrev pub Problem : Type 0
Problem = ℕ × Bytes

abbrev pub bad_request : Problem
bad_request = (400, codes "invalid_request")

abbrev pub not_found : Problem
not_found = (404, codes "not_found")

abbrev pub payload_too_large : Problem
payload_too_large = (413, codes "payload_too_large")

abbrev pub unsupported_media_type : Problem
unsupported_media_type = (415, codes "unsupported_media_type")

abbrev pub internal_server_error : Problem
internal_server_error = (500, codes "internal_error")

-- A JSON body of ErrorResponse with one of the problems
abbrev pub IsProblem : List Problem → Response → Type 0
IsProblem [] x = ⊥
IsProblem ((status, code) ∷ ps) x =
    ((message : Bytes) × (x ≡ respond_error status code message)) ⊎ IsProblem ps x

-- POST /upload
abbrev pub IsUploadAnswer : Response → Type 0
IsUploadAnswer x =
    ((b : TrackUploadResponse) × (x ≡ json_response 201 (upload_body b)))
    ⊎ IsProblem
        (bad_request ∷ payload_too_large ∷ unsupported_media_type ∷ internal_server_error ∷ []) x

-- GET /tracks: `total` is the number of items.
abbrev pub IsListAnswer : Response → Type 0
IsListAnswer x =
    ((items : List TrackListItem) × (x
        ≡ json_response 200 (tracks_body (record { items = items; total = length items }))))
    ⊎ IsProblem (bad_request ∷ internal_server_error ∷ []) x

-- GET /download/{track_id}
abbrev pub IsDownloadAnswer : Response → Type 0
IsDownloadAnswer x =
    ((b : DownloadUrlResponse) × (x ≡ json_response 200 (download_body b)))
    ⊎ IsProblem (not_found ∷ bad_request ∷ internal_server_error ∷ []) x

-- The four operations
pub data Operation (r : Request) : Type 0 where
  get_health : r.method ≡ codes "GET" → r.path ≡ codes "/health" → Operation r
  post_upload : r.method ≡ codes "POST" → r.path ≡ codes "/upload" → Operation r
  get_tracks : r.method ≡ codes "GET" → r.path ≡ codes "/tracks" → Operation r
  get_download :
      (id : Bytes)
      → IsElement id
      → r.method ≡ codes "GET"
      → r.path ≡ codes "/download/" ++ id
      → Operation r

-- An answer that the description lists for the operation
abbrev pub IsDocumented : {r : Request} → Operation r → Response → Type 0
IsDocumented (get_health _ _) x =
    x ≡ json_response 200 (health_body (record { status = codes "ok" }))
IsDocumented (post_upload _ _) x = IsUploadAnswer x
IsDocumented (get_tracks _ _) x = IsListAnswer x
IsDocumented (get_download _ _ _ _) x = IsDownloadAnswer x
