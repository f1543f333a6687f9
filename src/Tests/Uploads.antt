-- ===== src/Tests/Uploads.antt =====
-- Uploads that succeed, that are taken back, that are refused, and that leave an orphan.
use audio_streaming_service.Common.{
  ◌≡◌, ◌≢◌, ◌↔◌, refl, Bool, true, false, [], ◌∷◌, some, Bytes, codes, bytes_eq, Error, bad_url, ok,
  err, ℤ, arith,
}
use audio_streaming_service.Std.Format.{decimal}
use audio_streaming_service.Config.{build_public_object_url}
use audio_streaming_service.Events.{Message, job_created, publish_created}
use audio_streaming_service.Events.Publisher.{IsAnnouncement, kafka_transcode_publisher-IsPublisher}
use audio_streaming_service.Handlers.{Request}
use audio_streaming_service.Handlers.Upload.{
  Upload, pass, check_upload, upload, new_object_id, after_object_id, after_put, after_create,
  after_publish, is_supported_audio,
}
use audio_streaming_service.Handlers.Upload.Checks.{
  IsChecked, check_upload-IsChecked, check_upload_iff,
}
use audio_streaming_service.Handlers.Upload.Rejections.{IsRejection}
use audio_streaming_service.Handlers.Upload.Commit.{Commits}
use audio_streaming_service.Handlers.Upload.Contained.{IsBounded, upload-IsBounded}
use audio_streaming_service.Handlers.Upload.Orphan.{IsOrphaned, upload_orphans}
use audio_streaming_service.Handlers.Upload.Rollback.{DeletesWork}
use audio_streaming_service.Handlers.Upload.Success.{NoFailure, upload_succeeds}
use audio_streaming_service.Handlers.Upload.Saga.{
  upload-IsCommitted, upload-Untouched, upload_rejects,
}
use audio_streaming_service.Repository.{scan_track_status}
use audio_streaming_service.Repository.Queries.{scan_track, create_track, delete_track_by_id}
use audio_streaming_service.Repository.Tables.{inserted, select_by_id}
use audio_streaming_service.Repository.Tables.Rows.{row_of}
use audio_streaming_service.Services.{Untouched, IsPublisher}
use audio_streaming_service.Std.Hex.{encode_to_string}
use audio_streaming_service.Std.Path.{clean, path_join, ext}
use audio_streaming_service.Std.Strings.{trim_space, trim_prefix, contains, to_lower, is_one_of}
use audio_streaming_service.Storage.{put_object, public_object_url}
use audio_streaming_service.TrackStorage.{put_original}
use audio_streaming_service.TrackStorage.Keys.{
  original_key, normalize_segment, validate_audio_extension,
}
use audio_streaming_service.TrackStorage.Keys.OriginalKeys.{layout, extension_of}
use audio_streaming_service.TrackStorage.Keys.Segments.{IsSegment}
use audio_streaming_service.Tests.Memory.{
  World, observed, empty_world, memory_client-IsStorage, memory_db-IsDatabase, memory_db, run_row,
  run_exec, insert_new,
}
use audio_streaming_service.Tests.Setup.{
  memory_writer, memory_writer-IsWriter, lost_writer, lost_writer-IsWriter, clock, marshal,
  packages, packages-RandOutcome, config, memory_storage, handler_with,
}

abbrev request : Bytes → Request
request filename = record {
  method = codes "POST";
  path = codes "/upload";
  query = [];
  vars = [];
  form_size = 400;
  form = some (record {
    values = (codes "artist", codes " Nina ") ∷ (codes "title", codes "Blue") ∷ [];
    files =
        (codes "file", record { filename = filename; content_type = []; content = ok (1 ∷ 2 ∷ []) })
        ∷ [];
  });
}

abbrev pub song : Request
song = request (codes "blue.MP3")

abbrev pub parsed_song : Upload
parsed_song = record {
  artist = codes "Nina";
  title = codes "Blue";
  filename = codes "blue.MP3";
  content_type = [];
  body = 1 ∷ 2 ∷ [];
}

song-pass : check_upload config song ≡ pass parsed_song
unfolding check_upload is_supported_audio bytes_eq trim_space to_lower is_one_of ext
song-pass = refl

song-IsChecked : IsChecked config song parsed_song
song-IsChecked = check_upload-IsChecked config song parsed_song song-pass

check_upload_iff_example :
    (check_upload config song ≡ pass parsed_song) ↔ IsChecked config song parsed_song
check_upload_iff_example = check_upload_iff config song parsed_song

pub song_201 : (upload (packages ok) (handler_with memory_writer) song empty_world).0.status ≡ 201
unfolding upload is_supported_audio bytes_eq trim_space to_lower is_one_of ext new_object_id
    after_object_id put_original original_key normalize_segment validate_audio_extension trim_prefix
    contains clean path_join encode_to_string put_object public_object_url build_public_object_url
    after_put create_track run_row insert_new select_by_id scan_track scan_track_status row_of
    inserted after_create publish_created job_created decimal after_publish
song_201 = refl

song_500 : (upload (packages ok) (handler_with lost_writer) song empty_world).0.status ≡ 500
unfolding upload is_supported_audio bytes_eq trim_space to_lower is_one_of ext new_object_id
    after_object_id put_original original_key normalize_segment validate_audio_extension trim_prefix
    contains clean path_join encode_to_string put_object public_object_url build_public_object_url
    after_put create_track run_row insert_new select_by_id scan_track scan_track_status row_of
    inserted after_create publish_created job_created decimal after_publish
song_500 = refl

abbrev pub Published : Bytes → Bytes → ℤ → Message → Type 0
Published = IsAnnouncement observed clock marshal memory_writer memory_writer-IsWriter

upload-IsCommitted_example :
    (u : Upload) × IsChecked config song u
    × (object_id : Bytes) × IsSegment object_id
    × Commits observed
        (packages ok)
        (handler_with memory_writer)
        Published
        u
        (layout object_id (extension_of u.filename))
        empty_world
        (upload (packages ok) (handler_with memory_writer) song empty_world)
upload-IsCommitted_example =
    upload-IsCommitted observed (packages ok) (handler_with memory_writer) Published
      (kafka_transcode_publisher-IsPublisher observed clock marshal memory_writer
        memory_writer-IsWriter)
      memory_db-IsDatabase memory_client-IsStorage (packages-RandOutcome ok 16) song empty_world
      song_201

abbrev pub Lost : Bytes → Bytes → ℤ → Message → Type 0
Lost = IsAnnouncement observed clock marshal lost_writer lost_writer-IsWriter

pub memory_url :
    (key : Bytes)
    → (url : Bytes) × (public_object_url (packages ok).urls (some memory_storage) key ≡ ok url)
unfolding public_object_url build_public_object_url bytes_eq
memory_url key = (_, refl)

pub run_exec-ok :
    (b : Bytes) (valid : Bool) (w : World)
    → (delete_track_by_id memory_db (record { bytes = b; valid = valid }) w).0 ≡ ok tt
unfolding delete_track_by_id run_exec
run_exec-ok b true w = refl
run_exec-ok b false w = refl

pub memory-DeletesWork : DeletesWork (handler_with lost_writer)
memory-DeletesWork = record {
  object = λ b k w. refl;
  row = λ id w. run_exec-ok id.bytes id.valid w;
}

-- The row and the object are there before the message fails, and not after it.
upload-Untouched_example :
    Untouched observed empty_world
      (upload (packages ok) (handler_with lost_writer) song empty_world).1
upload-Untouched_example =
    upload-Untouched observed (packages ok) (handler_with lost_writer) Lost
      (kafka_transcode_publisher-IsPublisher observed clock marshal lost_writer
        lost_writer-IsWriter)
      memory_db-IsDatabase memory_client-IsStorage (packages-RandOutcome ok 16) song empty_world
      memory_url memory-DeletesWork (λ id e drawn. refl) (λ done. omega (arith, done, song_500))

abbrev text : Request
text = request (codes "blue.txt")

text_415 : (upload (packages ok) (handler_with memory_writer) text empty_world).0.status ≡ 415
unfolding upload is_supported_audio bytes_eq trim_space to_lower is_one_of ext
text_415 = refl

upload_rejects_example :
    ((upload (packages ok) (handler_with memory_writer) text empty_world).1 ≡ empty_world)
    × IsRejection config text (upload (packages ok) (handler_with memory_writer) text empty_world).0
upload_rejects_example =
    upload_rejects (packages ok) (handler_with memory_writer) text empty_world
      (λ done. omega (arith, done, text_415)) (λ failed. omega (arith, failed, text_415))

no_url :
    (key : Bytes)
    → (x : Error) × (public_object_url
          (packages (λ url. err bad_url)).urls
          (some memory_storage)
          key
        ≡ err x)
unfolding public_object_url build_public_object_url bytes_eq
no_url key = (bad_url, refl)

object_id_drawn :
    (x : Error) → (new_object_id (packages (λ url. err bad_url)) empty_world).0 ≢ err x
unfolding new_object_id
object_id_drawn x e = cc

upload_orphans_example :
    (id : Bytes) × ((new_object_id (packages (λ url. err bad_url)) empty_world).0 ≡ ok id)
    × IsOrphaned observed
        (packages (λ url. err bad_url))
        (handler_with memory_writer)
        memory_client-IsStorage
        (packages-RandOutcome (λ url. err bad_url) 16)
        no_url
        parsed_song
        id
        empty_world
        (upload (packages (λ url. err bad_url)) (handler_with memory_writer) song empty_world)
upload_orphans_example =
    upload_orphans observed (packages (λ url. err bad_url)) (handler_with memory_writer)
      memory_client-IsStorage (packages-RandOutcome (λ url. err bad_url) 16) no_url (λ i w. refl)
      song empty_world parsed_song song-pass object_id_drawn

memory-NoFailure : NoFailure (packages ok) (handler_with memory_writer)
unfolding run_row insert_new publish_created public_object_url build_public_object_url bytes_eq
memory-NoFailure = record {
  draw = λ w x e. cc;
  put = λ i w x e. cc;
  link = λ key x e. cc;
  insert = λ p w x e. cc;
  publish = λ id path priority w x e. cc;
}

upload_succeeds_example :
    (upload (packages ok) (handler_with memory_writer) song empty_world).0.status ≡ 201
upload_succeeds_example =
    upload_succeeds observed (packages ok) (handler_with memory_writer) memory_db-IsDatabase
      memory_client-IsStorage (packages-RandOutcome ok 16) memory-NoFailure song empty_world
      parsed_song song-IsChecked

pub lost_publisher : IsPublisher observed Lost (handler_with lost_writer).jobs
lost_publisher =
    kafka_transcode_publisher-IsPublisher observed clock marshal lost_writer lost_writer-IsWriter

upload-IsBounded_example :
    IsBounded observed
      (packages ok)
      (handler_with lost_writer)
      Lost
      lost_publisher
      memory_db-IsDatabase
      memory_client-IsStorage
      empty_world
      (upload (packages ok) (handler_with lost_writer) song empty_world)
upload-IsBounded_example =
    upload-IsBounded observed (packages ok) (handler_with lost_writer) Lost lost_publisher
      memory_db-IsDatabase memory_client-IsStorage (packages-RandOutcome ok 16) song empty_world
