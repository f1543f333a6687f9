-- ===== src/Server/Schemas.antt =====
-- core-api/openapi.yaml: the schemas of the bodies, and which goes with which status.
use audio_streaming_service.Common.{ℕ, ◌≡◌, List, [], ◌∷◌, Bytes, codes, All, ◌⊎◌}
use audio_streaming_service.Handlers.{Request, Response}
use audio_streaming_service.Handlers.Json.{Scalar, string, integer, Member, scalar, array, members}
use audio_streaming_service.Server.Documented.{
  Problem, bad_request, not_found, payload_too_large, unsupported_media_type, internal_server_error,
  Operation, get_health, post_upload, get_tracks, get_download,
}

-- The type of a property
pub data Kind : Type 0 where
  a_string an_integer : Kind

abbrev HasKind : Kind → Scalar → Type 0
HasKind a_string v = (s : Bytes) × (v ≡ string s)
HasKind an_integer v = (n : ℕ) × (v ≡ integer n)

-- An item with exactly these properties, all of them required
abbrev pub IsObject : List (Bytes × Kind) → List (Bytes × Scalar) → Type 0
IsObject [] [] = Unit
IsObject ((name, k) ∷ ks) ((n, v) ∷ vs) = (n ≡ name) × HasKind k v × IsObject ks vs
IsObject _ _ = ⊥

-- A response with exactly these properties, all of them required and none an array
abbrev pub IsFlat : List (Bytes × Kind) → List (Bytes × Member) → Type 0
IsFlat [] [] = Unit
IsFlat ((name, k) ∷ ks) ((n, m) ∷ ms) =
    (n ≡ name) × ((v : Scalar) × (m ≡ scalar v) × HasKind k v) × IsFlat ks ms
IsFlat _ _ = ⊥

-- HealthResponse, Track, TrackUploadResponse and DownloadURLResponse
abbrev health_schema : List (Bytes × Kind)
health_schema = (codes "status", a_string) ∷ []

abbrev pub track_schema : List (Bytes × Kind)
track_schema =
    (codes "track_id", a_string)
    ∷ (codes "artist", a_string)
    ∷ (codes "title", a_string)
    ∷ (codes "original_filename", a_string)
    ∷ (codes "original_size", an_integer)
    ∷ (codes "status", a_string)
    ∷ (codes "uploaded_at", a_string)
    ∷ []

abbrev upload_schema : List (Bytes × Kind)
upload_schema =
    (codes "track_id", a_string)
    ∷ (codes "artist", a_string)
    ∷ (codes "title", a_string)
    ∷ (codes "original_filename", a_string)
    ∷ (codes "status", a_string)
    ∷ (codes "uploaded_at", a_string)
    ∷ []

abbrev download_schema : List (Bytes × Kind)
download_schema =
    (codes "track_id", a_string)
    ∷ (codes "original_filename", a_string)
    ∷ (codes "download_url", a_string)
    ∷ []

-- TrackListResponse: `items` and `total`
abbrev pub IsTrackList : List (Bytes × Member) → Type 0
IsTrackList ms =
    (items : List (List (Bytes × Scalar))) × (total : ℕ) × All (IsObject track_schema) items
    × (ms ≡ (codes "items", array items) ∷ (codes "total", scalar (integer total)) ∷ [])

-- ErrorResponse: `error` is required, `message` is not.
abbrev pub IsError : Bytes → List (Bytes × Member) → Type 0
IsError code ms =
    (ms ≡ (codes "error", scalar (string code)) ∷ [])
    ⊎ ((message : Bytes) × (ms
          ≡ (codes "error", scalar (string code))
            ∷ (codes "message", scalar (string message))
            ∷ []))

-- One of the problems, with its status and its code
abbrev pub IsRefusal : List Problem → Response → Type 0
IsRefusal [] x = ⊥
IsRefusal ((status, code) ∷ ps) x =
    (x.status ≡ status) × IsError code (members x.body) ⊎ IsRefusal ps x

-- An answer with a status that is listed for the operation and a body of the schema for it
abbrev pub IsDescribed : {r : Request} → Operation r → Response → Type 0
IsDescribed (get_health _ _) x = (x.status ≡ 200) × IsFlat health_schema (members x.body)
IsDescribed (post_upload _ _) x =
    (x.status ≡ 201) × IsFlat upload_schema (members x.body)
    ⊎ IsRefusal
        (bad_request ∷ payload_too_large ∷ unsupported_media_type ∷ internal_server_error ∷ []) x
IsDescribed (get_tracks _ _) x =
    (x.status ≡ 200) × IsTrackList (members x.body)
    ⊎ IsRefusal (bad_request ∷ internal_server_error ∷ []) x
IsDescribed (get_download _ _ _ _) x =
    (x.status ≡ 200) × IsFlat download_schema (members x.body)
    ⊎ IsRefusal (not_found ∷ bad_request ∷ internal_server_error ∷ []) x
