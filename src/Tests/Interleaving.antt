-- ===== src/Tests/Interleaving.antt =====
-- Two uploads that run at the same time.
use native.Mathlib.Decide.{ℕ_discrete}
use audio_streaming_service.Common.{
  All, ℤ, length, ℕ, zero, suc, ◌≡◌, ◌≢◌, refl, [], none, Bytes, bytes_eq, some, ok,
}
use audio_streaming_service.Config.{build_public_object_url}
use audio_streaming_service.Handlers.{Response, internal_error}
use audio_streaming_service.Handlers.Upload.{
  Upload, check_upload, new_object_id, is_supported_audio,
}
use audio_streaming_service.Handlers.Upload.Interleaved.{
  System, Reach, request, call, start, later, IsNew, Backed, holder, update,
}
use audio_streaming_service.Events.{Message, KafkaWriter, job_created, publish_created}
use audio_streaming_service.Events.Publisher.{IsAnnouncement, kafka_transcode_publisher-IsPublisher}
use audio_streaming_service.Std.Format.{decimal}
use audio_streaming_service.Handlers.Upload.Interleaved.Announced.{IsServed, interleaved-IsServed}
use audio_streaming_service.Handlers.Upload.Interleaved.Bounds.{Labelled, interleaved-Labelled}
use audio_streaming_service.Handlers.Upload.Interleaved.Safety.{interleaved-Backed}
use audio_streaming_service.Handlers.Upload.Interleaved.Updates.{update-All}
use audio_streaming_service.Handlers.Upload.Steps.{Progress, arrived, drawing, answered, step}
use audio_streaming_service.Std.Hex.{encode_to_string}
use audio_streaming_service.TrackStorage.{put_original}
use audio_streaming_service.TrackStorage.Keys.{
  original_key, normalize_segment, validate_audio_extension,
}
use audio_streaming_service.Repository.{scan_track_status}
use audio_streaming_service.Repository.Queries.{scan_track, create_track}
use audio_streaming_service.Repository.Tables.{inserted, select_by_id}
use audio_streaming_service.Repository.Tables.Rows.{row_of}
use audio_streaming_service.Storage.{put_object, public_object_url}
use audio_streaming_service.Std.Path.{ext, clean, path_join}
use audio_streaming_service.Std.Strings.{trim_space, trim_prefix, contains, to_lower, is_one_of}
use audio_streaming_service.Tests.Memory.{
  World, run_row, insert_new, observed, empty_world, memory_client-IsStorage, memory_db-IsDatabase,
}
use audio_streaming_service.Tests.Setup.{
  lost_writer, memory_writer, memory_writer-IsWriter, clock, marshal, packages,
  packages-RandOutcome, handler_with,
}
use audio_streaming_service.Tests.Uploads.{song, parsed_song, lost_publisher, run_exec-ok}

abbrev nobody : Response
nobody = internal_error []

abbrev idle : System World
idle = record { at = λ i. answered nobody; world = empty_world }

abbrev both : System World
both = record {
  at = update (update idle.at 0 (arrived song)) 1 (arrived song);
  world = empty_world;
}

-- A request that holds no key holds none among those that hold none.
holder-update :
    (f : ℕ → Progress) (i : ℕ) (p : Progress) (k : Bytes)
    → holder p ≡ none
    → ((j : ℕ) → holder (f j) ≢ some k)
    → (j : ℕ) → holder (update f i p j) ≢ some k
holder-update f i p k e others =
    update-All f i p (λ j q. holder q ≢ some k) (λ e'. cc) (λ j n. others j)

module _ (writer : KafkaWriter World) where
  -- The state after the next call of request 0
  abbrev after_call : System World → System World
  after_call s = record {
    at = update s.at 0 (step (packages ok) (handler_with writer) (s.at 0) s.world).0;
    world = (step (packages ok) (handler_with writer) (s.at 0) s.world).1;
  }

  abbrev IsNext : System World → Type 0
  IsNext s = IsNew observed (packages ok) (handler_with writer) s 0

  both-Reach : Reach observed (packages ok) (handler_with writer) idle both
  unfolding ℕ_discrete
  both-Reach = later (later start (request idle 0 nobody song refl)) (request _ 1 nobody song refl)

  IsNext-else : (s : System World) → ((u : Upload) → s.at 0 ≢ drawing u) → IsNext s
  IsNext-else s n = (λ u id e. absurd (n u e), λ j u id e. absurd (n u e))

  abbrev stage : ℕ → System World
  stage zero = both
  stage (suc n) = after_call (stage n)

  stage1 : (stage 1).at 0 ≡ drawing parsed_song
  unfolding step check_upload is_supported_audio bytes_eq trim_space to_lower is_one_of ext
      ℕ_discrete
  stage1 = refl

  stage2 : (u : Upload) → (stage 2).at 0 ≢ drawing u
  unfolding step check_upload is_supported_audio bytes_eq trim_space to_lower is_one_of ext
      ℕ_discrete new_object_id
  stage2 u e = cc

  stage3 : (u : Upload) → (stage 3).at 0 ≢ drawing u
  unfolding step check_upload is_supported_audio bytes_eq trim_space to_lower is_one_of ext
      ℕ_discrete new_object_id put_original original_key normalize_segment validate_audio_extension
      trim_prefix contains clean path_join encode_to_string put_object public_object_url
      build_public_object_url
  stage3 u e = cc

  stage1-IsNext : IsNext (stage 1)
  unfolding step check_upload is_supported_audio bytes_eq trim_space to_lower is_one_of ext
      ℕ_discrete
  stage1-IsNext = (
    λ u id e drawn. tt,
    λ j u id e drawn.
        holder-update both.at 0 (drawing parsed_song) _ refl
          (holder-update (update idle.at 0 (arrived song)) 1 (arrived song) _ refl
            (holder-update idle.at 0 (arrived song) _ refl (λ j e. cc)))
          j,
  )

  stage4-Reach : Reach observed (packages ok) (handler_with writer) idle (stage 4)
  unfolding ℕ_discrete
  stage4-Reach =
      later
        (later
          (later (later both-Reach (call both 0 (IsNext-else both (λ u e. cc))))
            (call (stage 1) 0 stage1-IsNext))
          (call (stage 2) 0 (IsNext-else (stage 2) stage2)))
        (call (stage 3) 0 (IsNext-else (stage 3) stage3))

  stage4-IsNext : IsNext (stage 4)
  unfolding step check_upload is_supported_audio bytes_eq trim_space to_lower is_one_of ext
      new_object_id put_original original_key normalize_segment validate_audio_extension trim_prefix
      contains clean path_join encode_to_string put_object public_object_url build_public_object_url
      create_track run_row insert_new select_by_id scan_track scan_track_status row_of inserted
      ℕ_discrete
  stage4-IsNext = IsNext-else (stage 4) (λ u e. cc)

  stage5-Reach : Reach observed (packages ok) (handler_with writer) idle (stage 5)
  stage5-Reach = later stage4-Reach (call (stage 4) 0 stage4-IsNext)

interleaved-Backed_example :
    Backed observed (handler_with lost_writer).tracks.bucket (stage lost_writer 4).world
interleaved-Backed_example =
    interleaved-Backed observed (packages ok) (handler_with lost_writer) lost_publisher
      memory_db-IsDatabase memory_client-IsStorage (packages-RandOutcome ok 16)
      (λ id w. run_exec-ok id.bytes id.valid w) idle (λ i. (nobody, refl)) tt
      (stage4-Reach lost_writer)

interleaved-Labelled_example : Labelled observed (stage lost_writer 4).world
interleaved-Labelled_example =
    interleaved-Labelled observed (packages ok) (handler_with lost_writer) lost_publisher
      memory_db-IsDatabase memory_client-IsStorage (packages-RandOutcome ok 16) idle
      (λ i. (nobody, refl)) tt (stage4-Reach lost_writer)

abbrev Published : Bytes → Bytes → ℤ → Message → Type 0
Published = IsAnnouncement observed clock marshal memory_writer memory_writer-IsWriter

-- The first upload has been answered, and the second has only arrived.
interleaved-IsServed_example :
    All
      (IsServed observed
        (packages ok)
        (handler_with memory_writer)
        Published
        (stage memory_writer 5).world)
      (observed.jobs (stage memory_writer 5).world)
interleaved-IsServed_example =
    interleaved-IsServed observed (packages ok) (handler_with memory_writer) Published
      (kafka_transcode_publisher-IsPublisher observed clock marshal memory_writer
        memory_writer-IsWriter)
      memory_db-IsDatabase memory_client-IsStorage (packages-RandOutcome ok 16)
      (λ id w. run_exec-ok id.bytes id.valid w) idle (λ i. (nobody, refl)) tt tt
      (stage5-Reach memory_writer)

-- There is a message by then.
stage5-jobs : length (observed.jobs (stage memory_writer 5).world) ≡ 1
unfolding step check_upload is_supported_audio bytes_eq trim_space to_lower is_one_of ext
    new_object_id put_original original_key normalize_segment validate_audio_extension trim_prefix
    contains clean path_join encode_to_string put_object public_object_url build_public_object_url
    create_track run_row insert_new select_by_id scan_track scan_track_status row_of inserted
    publish_created job_created decimal ℕ_discrete
stage5-jobs = refl
