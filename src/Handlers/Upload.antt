-- ===== src/Handlers/Upload.antt =====
-- core-api/server/handlers/upload.go
pub mod Calls
pub mod Checks
pub mod Commit
pub mod Contained
pub mod Dangling
pub mod Effects
pub mod Interleaved
pub mod Orphan
pub mod Rejections
pub mod Rollback
pub mod Saga
pub mod Settled
pub mod Steps
pub mod Success
use audio_streaming_service.Common.{
  ℕ, Bool, true, false, not, ◌||◌, List, [], ◌∷◌, ◌++◌, Option, none, some, Bytes, codes, bytes_eq,
  Result, ok, err, Exec, if◌then◌else◌, ltb, leb, length,
}
use audio_streaming_service.Config.{Config}
use audio_streaming_service.Events.{TranscodePublisher}
use audio_streaming_service.Handlers.{
  FilePart, Form, Request, Response, Packages, upload_body, json_response, respond_error,
  internal_error, invalid_request, first_value, or_empty,
}
use audio_streaming_service.Repository.{Track, track_status_pending}
use audio_streaming_service.Repository.Queries.{
  Dbtx, CreateTrackParams, create_track, delete_track_by_id,
}
use audio_streaming_service.Std.Hex.{encode_to_string}
use audio_streaming_service.Std.Path.{ext}
use audio_streaming_service.Std.Strings.{trim_space, to_lower, is_one_of}
use audio_streaming_service.Storage.{S3Storage}
use audio_streaming_service.TrackStorage.{StoredObject, put_original, delete}

pub record UploadHandler (W : Type 0) : Type 0 where
  pub queries : Dbtx W
  pub tracks : S3Storage W
  pub jobs : TranscodePublisher W
  pub cfg : Config

-- `NewUploadHandler`
abbrev pub new_upload_handler :
    {W : Type 0} → Config → Dbtx W → S3Storage W → TranscodePublisher W → UploadHandler W
new_upload_handler cfg queries tracks jobs = record {
  queries = queries;
  tracks = tracks;
  jobs = jobs;
  cfg = cfg;
}

abbrev pub supported_extensions : List Bytes
supported_extensions = codes ".mp3" ∷ codes ".flac" ∷ codes ".wav" ∷ []

abbrev pub supports : Bytes → Bool
supports e = if bytes_eq e [] then false else is_one_of e supported_extensions

-- `isSupportedAudio`
unfoldable pub is_supported_audio : Bytes → Bool
is_supported_audio filename = supports (to_lower (ext (trim_space filename)))

-- The part of the handler before its first effect either replies or hands on what it has read.
pub data Check (A : Type 0) : Type 0 where
  reply : Response → Check A
  pass : A → Check A

pub record Upload : Type 0 where
  pub artist : Bytes
  pub title : Bytes
  pub filename : Bytes
  pub content_type : Bytes
  pub body : Bytes

-- `MaxBytesReader` and `ParseMultipartForm`: it is an error where more bytes than the limit have to be
-- read, or where the query or the form is malformed.
abbrev pub parse_multipart_form : ℕ → Request → Option Form
parse_multipart_form limit r = if ltb limit r.form_size then none else r.form

-- `FormValue`: the query comes before the multipart values.
abbrev pub form_value : Request → Form → Bytes → Bytes
form_value r form key = or_empty (first_value key (r.query ++ form.values))

abbrev pub too_large : Response
too_large = respond_error 413 (codes "payload_too_large") (codes "file exceeds max size")

abbrev pub unsupported : Response
unsupported = respond_error 415 (codes "unsupported_media_type") (codes "unsupported audio format")

unfoldable pub check_content : Bytes → Bytes → FilePart → Result Bytes → Check Upload
check_content artist title file (ok body) = pass (record {
  artist = artist;
  title = title;
  filename = file.filename;
  content_type = file.content_type;
  body = body;
})
check_content artist title file (err e) =
    reply (invalid_request (codes "failed to read uploaded file"))

unfoldable pub check_file : Bytes → Bytes → Option FilePart → Check Upload
unfolding is_supported_audio check_content
check_file artist title none = reply (invalid_request (codes "file is required"))
check_file artist title (some file) =
    if not (is_supported_audio file.filename)
    then reply unsupported
    else check_content artist title file file.content

unfoldable pub check_texts : Bytes → Bytes → Option FilePart → Check Upload
unfolding check_file
check_texts artist title file =
    if bytes_eq artist [] || bytes_eq title []
    then reply (invalid_request (codes "artist and title are required"))
    else if ltb 255 (length artist) || ltb 255 (length title)
    then reply (invalid_request (codes "artist/title length must be <= 255"))
    else check_file artist title file

unfoldable pub check_form : Request → Option Form → Check Upload
unfolding check_texts
check_form r none = reply too_large
check_form r (some form) =
    check_texts (trim_space (form_value r form (codes "artist")))
      (trim_space (form_value r form (codes "title"))) (first_value (codes "file") form.files)

unfoldable pub check_upload : Config → Request → Check Upload
unfolding check_form
check_upload cfg r = check_form r (parse_multipart_form cfg.upload_max_bytes r)

-- The row that is asked for
abbrev pub new_track_params : Upload → StoredObject → CreateTrackParams
new_track_params u stored = record {
  artist = u.artist;
  title = u.title;
  original_filename = u.filename;
  original_object_key = stored.key;
  original_size = stored.size;
  status = track_status_pending;
}

abbrev pub hex_of : {W : Type 0} → Result Bytes × W → Result Bytes × W
hex_of (ok b, w) = (ok (encode_to_string b), w)
hex_of (err e, w) = (err e, w)

-- `newObjectID`
unfoldable pub new_object_id : {W : Type 0} → Packages W → Exec W Bytes
new_object_id pkg w = hex_of (pkg.rand_read 16 w)

module _ {W : Type 0} (pkg : Packages W) (h : UploadHandler W) where
  abbrev pub created : Track → Response
  created track = json_response 201 (
      upload_body (record {
        track_id = pkg.uuid_string track.id;
        artist = track.artist;
        title = track.title;
        original_filename = track.original_filename;
        status = track.status;
        uploaded_at = pkg.format_rfc3339 track.uploaded_at;
      }))

  -- Each step of the handler is a function of the result of the call before it.
  unfoldable pub after_publish : Track → Bytes → Result (Unit {0}) × W → Response × W
  after_publish track key (ok tt, w) = (created track, w)
  after_publish track key (err e, w) = (
    internal_error (codes "failed to enqueue transcode job"),
    (delete h.tracks key (delete_track_by_id h.queries track.id w).1).1,
  )

  unfoldable pub after_create : Bytes → Result Track × W → Response × W
  after_create key (ok track, w) = after_publish track key (
      h.jobs.publish_created (pkg.uuid_string track.id) track.original_object_key
        h.cfg.transcode_job_priority w)
  after_create key (err e, w) =
      (internal_error (codes "failed to create track metadata"), (delete h.tracks key w).1)

  unfoldable pub after_put : Upload → Result StoredObject × W → Response × W
  after_put u (ok stored, w) =
      after_create stored.key (create_track h.queries (new_track_params u stored) w)
  after_put u (err e, w) = (internal_error (codes "failed to store uploaded file"), w)

  unfoldable pub after_object_id : Upload → Result Bytes × W → Response × W
  after_object_id u (ok object_id, w) =
      after_put u (put_original pkg.urls h.tracks object_id u.filename u.body u.content_type w)
  after_object_id u (err e, w) = (internal_error (codes "failed to generate object id"), w)

  unfoldable pub after_check : Check Upload → W → Response × W
  after_check (reply r) w = (r, w)
  after_check (pass u) w = after_object_id u (new_object_id pkg w)

  -- `ServeHTTP`
  unfoldable pub upload : Request → W → Response × W
  unfolding check_upload after_check
  upload r = after_check (check_upload h.cfg r)
