-- ===== src/Tests/Playback.antt =====
-- A song that is uploaded, found and listed, over services in memory.
use mathlib.Core.Path.{subst}
use audio_streaming_service.Common.{
  ◌≡◌, refl, sym, ap, [], ◌∷◌, ◌++◌, Bool, true, false, Option, none, some, Bytes, codes, All, ok,
  Error, no_rows, err, arith, bytes_eq,
}
use audio_streaming_service.Config.{build_public_object_url}
use audio_streaming_service.Events.{job_created, publish_created}
use audio_streaming_service.Events.Publisher.{kafka_transcode_publisher-IsPublisher}
use audio_streaming_service.Handlers.{Request}
use audio_streaming_service.Handlers.Playback.{track_id_of, IsReadBack}
use audio_streaming_service.Handlers.Reads.{IsWhole, ReadsWork}
use audio_streaming_service.Handlers.Upload.{
  upload, new_object_id, after_object_id, after_put, after_create, after_publish,
  is_supported_audio,
}
use audio_streaming_service.Repository.{scan_track_status, Track}
use audio_streaming_service.Repository.Queries.{
  scan_track, create_track, get_track_by_id_sql, id_arg,
}
use audio_streaming_service.Repository.Tables.{inserted, select_by_id}
use audio_streaming_service.Repository.Tables.Rows.{row_of}
use audio_streaming_service.Server.{http_handler, new_mux, with_cors}
use audio_streaming_service.Server.Playback.{AreOfPlayable, http_handler-AreOfPlayable}
use audio_streaming_service.Server.Serving.{IsMeant, http_handler-new_mux}
use audio_streaming_service.Services.{Untouched-refl}
use audio_streaming_service.Std.Format.{decimal}
use audio_streaming_service.Std.Hex.{encode_to_string}
use audio_streaming_service.Std.Path.{clean, path_join, ext}
use audio_streaming_service.Std.Strings.{trim_space, trim_prefix, contains, to_lower, is_one_of}
use audio_streaming_service.Storage.{put_object, public_object_url}
use audio_streaming_service.TrackStorage.{put_original}
use audio_streaming_service.TrackStorage.Keys.{
  original_key, normalize_segment, validate_audio_extension,
}
use audio_streaming_service.Tests.Memory.{
  World, observed, empty_world, memory_client-IsStorage, memory_db-IsDatabase, memory_db, run_row,
  run_query, row_or_none, insert_new,
}
use audio_streaming_service.Tests.Requests.{downloads}
use audio_streaming_service.Tests.Routing.{
  memory_router, memory_mux, memory_mux-IsMux, uploads, registered, registered-SameRoutes,
}
use audio_streaming_service.Tests.Setup.{
  memory_writer, memory_writer-IsWriter, clock, marshal, packages, packages-RandOutcome,
  memory_storage,
}
use audio_streaming_service.Tests.Uploads.{song, song_201, Published}

row_or_none-no_rows :
    (found : Option Track) (w : World) (x : Error) → (row_or_none found w).0 ≡ err x → x ≡ no_rows
unfolding row_or_none
row_or_none-no_rows none w x e = cc
row_or_none-no_rows (some t) w x e = cc

run_row-no_rows :
    (b : Bytes) (valid : Bool) (w : World) (x : Error)
    → (run_row get_track_by_id_sql (id_arg (record { bytes = b; valid = valid }) ∷ []) w).0 ≡ err x
    → x ≡ no_rows
unfolding run_row
run_row-no_rows b true w x e = row_or_none-no_rows _ w x e
run_row-no_rows b false w x e = cc

memory-ReadsWork : ReadsWork memory_db memory_storage
unfolding run_query IsWhole
memory-ReadsWork = record {
  select = λ id w x e. run_row-no_rows id.bytes id.valid w x e;
  list = λ status w. refl;
  presign = λ b k expires w x e. cc;
}

abbrev after_song : World
after_song = (http_handler memory_mux (new_mux memory_mux registered) song empty_world).1

song_served :
    http_handler memory_mux (new_mux memory_mux registered) song empty_world
    ≡ with_cors (upload (packages ok) uploads song empty_world)
song_served =
    http_handler-new_mux memory_mux memory_router memory_mux-IsMux (packages ok) uploads downloads
      memory_db registered registered-SameRoutes song empty_world (IsMeant.an_upload refl refl)

-- The id of the row is the text Z.
song_stored :
    All (IsReadBack (packages ok)) (upload (packages ok) uploads song empty_world).1.table
    × (track_id_of (upload (packages ok) uploads song empty_world).0.body ≡ codes "Z")
unfolding upload is_supported_audio bytes_eq trim_space to_lower is_one_of ext new_object_id
    after_object_id put_original original_key normalize_segment validate_audio_extension trim_prefix
    contains clean path_join encode_to_string put_object public_object_url build_public_object_url
    after_put create_track run_row insert_new select_by_id scan_track scan_track_status row_of
    inserted after_create publish_created job_created decimal after_publish
song_stored = (((((cc, cc, cc), omega arith), refl), tt), refl)

after_song-IsReadBack : All (IsReadBack (packages ok)) after_song.table
after_song-IsReadBack =
    subst (λ q. All (IsReadBack (packages ok)) q.1.table) (sym song_served) song_stored.0

abbrev get_song : Request
get_song = record {
  method = codes "GET";
  path = codes "/download/Z";
  query = [];
  vars = [];
  form_size = 0;
  form = none;
}

abbrev list_pending : Request
list_pending = record get_song {
  path = codes "/tracks";
  query = (codes "status", codes "pending ") ∷ [];
}

list_pending-status : trim_space (codes "pending ") ≡ codes "pending"
unfolding trim_space
list_pending-status = refl

http_handler-AreOfPlayable_example :
    AreOfPlayable observed memory_mux memory_router memory_mux-IsMux
      (packages ok)
      uploads
      registered
      registered-SameRoutes
      Published
      (kafka_transcode_publisher-IsPublisher observed clock marshal memory_writer
        memory_writer-IsWriter)
      memory_db-IsDatabase
      memory_client-IsStorage
      (packages-RandOutcome ok 16)
      memory-ReadsWork
      song
      after_song
      (http_handler memory_mux (new_mux memory_mux registered) song empty_world).0
      (http_handler memory_mux (new_mux memory_mux registered) get_song after_song).0
      (http_handler memory_mux (new_mux memory_mux registered) list_pending after_song).0
unfolding bytes_eq
http_handler-AreOfPlayable_example =
    http_handler-AreOfPlayable observed memory_mux memory_router memory_mux-IsMux (packages ok)
      uploads registered registered-SameRoutes Published
      (kafka_transcode_publisher-IsPublisher observed clock marshal memory_writer
        memory_writer-IsWriter)
      memory_db-IsDatabase memory_client-IsStorage (packages-RandOutcome ok 16) memory-ReadsWork
      song get_song list_pending empty_world after_song refl refl (rw song_served song_201)
      (Untouched-refl observed after_song) after_song-IsReadBack refl
      (rw song_served (ap (λ id. codes "/download/" ++ id) (sym song_stored.1))) refl refl
      list_pending-status
