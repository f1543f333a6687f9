-- ===== src/Handlers/Upload/Settled.antt =====
-- An upload, call by call, up to its answer: all of it is done, or nothing.
use audio_streaming_service.Common.{◌≡◌, ◌≢◌, Bytes, ◌⊎◌, ℤ}
use audio_streaming_service.Events.{Message}
use audio_streaming_service.Handlers.{Request, Response, Packages}
use audio_streaming_service.Handlers.Upload.{UploadHandler, Upload}
use audio_streaming_service.Handlers.Upload.Checks.{IsChecked}
use audio_streaming_service.Handlers.Upload.Commit.{Commits}
use audio_streaming_service.Services.{
  Observed, Untouched, RandOutcome, IsStorage, IsDatabase, IsPublisher,
}
use audio_streaming_service.TrackStorage.Keys.OriginalKeys.{layout, extension_of}
use audio_streaming_service.TrackStorage.Keys.Segments.{IsSegment}

module _ {W : Type 0} (o : Observed W) (pkg : Packages W) (h : UploadHandler W)
    (Announces : Bytes → Bytes → ℤ → Message → Type 0) (publisher : IsPublisher o Announces h.jobs)
    (database : IsDatabase o h.queries) (storage : IsStorage o h.tracks.client)
    (random : (w : W) → RandOutcome o 16 w (pkg.rand_read 16 w)) (r : Request) (w : W) where
  -- Answered 201, with one object, one row and one message more; or answered otherwise, with nothing
  -- changed
  abbrev pub IsSettled : Response × W → Type 0
  IsSettled q =
      ((q.0.status ≡ 201)
        × (u : Upload) × IsChecked h.cfg r u
        × (object_id : Bytes) × IsSegment object_id
        × Commits o pkg h Announces u (layout object_id (extension_of u.filename)) w q)
      ⊎ ((q.0.status ≢ 201) × Untouched o w q.1)
