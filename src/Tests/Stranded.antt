-- ===== src/Tests/Stranded.antt =====
-- An upload whose row cannot be deleted again.
use audio_streaming_service.Common.{◌≡◌, refl, Bytes, bytes_eq, service, ok, err}
use audio_streaming_service.Std.Format.{decimal}
use audio_streaming_service.Config.{build_public_object_url}
use audio_streaming_service.Events.{job_created, publish_created}
use audio_streaming_service.Handlers.Upload.{
  Upload, UploadHandler, upload, new_object_id, after_object_id, after_put, after_create,
  after_publish, is_supported_audio,
}
use audio_streaming_service.Handlers.Upload.Checks.{IsChecked}
use audio_streaming_service.Handlers.Upload.Dangling.{
  IsStranding, IsDangling, unpublished, upload-IsDangling,
}
use audio_streaming_service.Repository.{scan_track_status}
use audio_streaming_service.Repository.Queries.{Dbtx, scan_track, create_track, delete_track_by_id}
use audio_streaming_service.Repository.Tables.{inserted, select_by_id}
use audio_streaming_service.Repository.Tables.Rows.{row_of}
use audio_streaming_service.Services.{Untouched-refl, DeleteRowOutcome, IsDatabase}
use audio_streaming_service.Std.Hex.{encode_to_string}
use audio_streaming_service.Std.Path.{clean, path_join, ext}
use audio_streaming_service.Std.Strings.{trim_space, trim_prefix, contains, to_lower, is_one_of}
use audio_streaming_service.Storage.{put_object, public_object_url}
use audio_streaming_service.TrackStorage.{put_original}
use audio_streaming_service.TrackStorage.Keys.{
  original_key, normalize_segment, validate_audio_extension,
}
use audio_streaming_service.TrackStorage.Keys.OriginalKeys.{layout, extension_of}
use audio_streaming_service.TrackStorage.Keys.Segments.{IsSegment}
use audio_streaming_service.Tests.Memory.{
  World, observed, empty_world, memory_client-IsStorage, memory_db-IsDatabase, memory_db, run_row,
  insert_new,
}
use audio_streaming_service.Tests.Setup.{
  lost_writer, packages, packages-RandOutcome, config, handler_with,
}
use audio_streaming_service.Tests.Uploads.{song, Lost, lost_publisher}

-- A database that refuses every DELETE
abbrev stuck_db : Dbtx World
stuck_db = record memory_db { exec = λ s vs w. (err service, w) }

stuck_db-IsDatabase : IsDatabase observed stuck_db
stuck_db-IsDatabase = record {
  insert = memory_db-IsDatabase.insert;
  delete = λ id w. DeleteRowOutcome.failed (Untouched-refl observed w);
  select = memory_db-IsDatabase.select;
  list = memory_db-IsDatabase.list;
}

abbrev stuck : UploadHandler World
stuck = record (handler_with lost_writer) { queries = stuck_db }

stuck-IsStranding : IsStranding stuck
unfolding delete_track_by_id
stuck-IsStranding = record { row = λ id w e. cc; object = λ b k w. refl }

stuck-unpublished : (upload (packages ok) stuck song empty_world).0 ≡ unpublished
unfolding upload is_supported_audio bytes_eq trim_space to_lower is_one_of ext new_object_id
    after_object_id put_original original_key normalize_segment validate_audio_extension trim_prefix
    contains clean path_join encode_to_string put_object public_object_url build_public_object_url
    after_put create_track run_row insert_new select_by_id scan_track scan_track_status row_of
    inserted after_create publish_created job_created decimal after_publish
stuck-unpublished = refl

upload-IsDangling_example :
    (u : Upload) × IsChecked config song u
    × (id : Bytes) × IsSegment id
    × IsDangling observed
        (packages ok)
        stuck
        Lost
        lost_publisher
        stuck_db-IsDatabase
        memory_client-IsStorage
        (packages-RandOutcome ok 16)
        u
        (layout id (extension_of u.filename))
        empty_world
        (upload (packages ok) stuck song empty_world)
upload-IsDangling_example =
    upload-IsDangling observed (packages ok) stuck Lost lost_publisher stuck_db-IsDatabase
      memory_client-IsStorage (packages-RandOutcome ok 16) stuck-IsStranding song empty_world
      stuck-unpublished
