-- ===== src/Handlers/Upload/Interleaved/Safety.antt =====
-- Uploads that run at the same time do not take the objects of one another's rows.
use audio_streaming_service.Handlers.Upload.Interleaved.{
  System, Step, Reach, request, call, start, later,
}
use audio_streaming_service.Handlers.Upload.Interleaved.Moves.{
  Moved, checked-Moved, drawn-Moved, placed-Moved, saved-Moved, sent-Moved, row_deleted-Moved,
  deleted-Moved, same-Moved,
}
use audio_streaming_service.Common.{ℕ, ◌≡◌, ◌≢◌, refl, Bytes, ok, ℤ}
use audio_streaming_service.Events.{Message}
use audio_streaming_service.Handlers.{Response, Packages}
use audio_streaming_service.Handlers.Upload.{UploadHandler, check_upload, new_track_params}
use audio_streaming_service.Handlers.Upload.Calls.{
  put_original-OriginalOutcome, create_track-CreateOutcome, new_object_id-ObjectIdOutcome,
  delete-layout, delete-DeleteRowOutcome,
}
use audio_streaming_service.Handlers.Upload.Interleaved.{Backed, IsUnused}
use audio_streaming_service.Handlers.Upload.Interleaved.Updates.{update-All, update-pairs}
use audio_streaming_service.Handlers.Upload.Interleaved.Promises.{IsKey, Apart, Fine}
use audio_streaming_service.Handlers.Upload.Steps.{
  Progress, arrived, drawing, storing, inserting, publishing, deleting_row, deleting_object,
  answered, step,
}
use audio_streaming_service.TrackStorage.{delete}
use audio_streaming_service.Repository.{Uuid}
use audio_streaming_service.Repository.Queries.{delete_track_by_id}
use audio_streaming_service.Services.{
  Observed, Untouched-refl, DeleteOutcome, RandOutcome, IsStorage, IsDatabase, IsPublisher,
}

module _ {W : Type 0} (o : Observed W) (pkg : Packages W) (h : UploadHandler W) where
  module _ {Announces : Bytes → Bytes → ℤ → Message → Type 0}
      (publisher : IsPublisher o Announces h.jobs) (database : IsDatabase o h.queries)
      (storage : IsStorage o h.tracks.client)
      (random : (w : W) → RandOutcome o 16 w (pkg.rand_read 16 w))
      (works : (id : Uuid) (w : W) → (delete_track_by_id h.queries id w).0 ≡ ok tt) where
    delete-DeleteOutcome :
        (key : Bytes)
        → IsKey key
        → (w : W) → DeleteOutcome o h.tracks.bucket key w (delete h.tracks key w)
    delete-DeleteOutcome key (segment, e, named, audio, same) w = rw same (
        rw (delete-layout o pkg.urls h.tracks storage segment e named audio w)
          (storage.delete _ _ w))

    pub step-Moved :
        (p : Progress) (w : W)
        → Fine o h.tracks.bucket p w
        → Backed o h.tracks.bucket w
        → IsUnused o pkg h p w
        → Moved o pkg h p w (step pkg h p w)
    unfolding step
    step-Moved (arrived r) w f backed unused =
        checked-Moved o pkg h r w backed (check_upload h.cfg r) refl
    step-Moved (drawing u) w audio backed unused =
        drawn-Moved o pkg h u w audio unused backed (new_object_id-ObjectIdOutcome o pkg random w)
          refl
    step-Moved (storing u id) w (named, audio, free) backed unused =
        placed-Moved o pkg h u id w (named, audio, free) backed
          (put_original-OriginalOutcome o pkg.urls h.tracks storage id u.filename named audio u.body
            u.content_type w)
    step-Moved (inserting u s) w f backed unused =
        saved-Moved o pkg h u s w f backed
          (create_track-CreateOutcome o h.queries database (new_track_params u s) w)
    step-Moved (publishing t key) w f backed unused =
        sent-Moved o pkg h t key w f backed (publisher.publish _ _ _ w)
    step-Moved (deleting_row t key) w f backed unused =
        row_deleted-Moved o pkg h t key _ w f backed
          (delete-DeleteRowOutcome o h.queries database t.id w) (works t.id w)
    step-Moved (deleting_object x key) w (k, free) backed unused =
        deleted-Moved o pkg h x key w (k, free) backed (delete-DeleteOutcome key k w)
    step-Moved (answered x) w f backed unused =
        same-Moved o pkg h (answered x) (answered x) (λ k e. e) refl (Untouched-refl o w).objects
          backed tt

    -- Every row has its object, every request can rely on what it needs, and no two hold one key.
    pub record IsSound (s : System W) : Type 0 where
      pub backed : Backed o h.tracks.bucket s.world
      pub fine : (i : ℕ) → Fine o h.tracks.bucket (s.at i) s.world
      pub apart : (i j : ℕ) → i ≢ j → Apart (s.at i) (s.at j)

    Apart-swap : (p q : Progress) → Apart p q → Apart q p
    Apart-swap p q apart k e e' = apart k e' e

    pub Step-IsSound : {s t : System W} → Step o pkg h s t → IsSound s → IsSound t
    Step-IsSound (request s i x r free) sound = record {
      backed = sound.backed;
      fine =
          update-All s.at i (arrived r) (λ j p. Fine o h.tracks.bucket p s.world) tt
            (λ j n. sound.fine j);
      apart = update-pairs s.at i (arrived r) Apart Apart-swap (λ j n k e. cc) sound.apart;
    }
    Step-IsSound (call s i (unused, new)) sound =
        let p = (step pkg h (s.at i) s.world).0 in
        let moved = step-Moved (s.at i) s.world (sound.fine i) sound.backed unused in
        record {
          backed = moved.backed;
          fine =
              update-All s.at i p (λ j p. Fine o h.tracks.bucket p (step pkg h (s.at i) s.world).1)
                moved.fine (λ j n. moved.others (s.at j) (sound.apart i j n) (sound.fine j));
          apart =
              update-pairs s.at i p Apart Apart-swap
                (λ j n. moved.apart (s.at j) (new j) (sound.apart i j n)) sound.apart;
        }

    Reach-IsSound : {s t : System W} → Reach o pkg h s t → IsSound s → IsSound t
    Reach-IsSound start sound = sound
    Reach-IsSound (later before last) sound = Step-IsSound last (Reach-IsSound before sound)

    module _ (s : System W) (idle : (i : ℕ) → (x : Response) × (s.at i ≡ answered x))
        (backed : Backed o h.tracks.bucket s.world) where
      pub idle-IsSound : IsSound s
      idle-IsSound = record {
        backed = backed;
        fine = λ i. let (x, e) = idle i in rw e tt;
        apart = λ i j n k. let (x, e) = idle i in rw e (λ none. cc);
      }

      -- Uploads run interleaved, one call at a time, from a state where all requests are answered and
      -- every row has its object. If the deletions of rows report no error and each drawn id makes a
      -- key that no row names and no request under way holds, then every row that is there after any
      -- number of steps has its object, whatever fails and is compensated.
      pub interleaved-Backed : {t : System W} → Reach o pkg h s t → Backed o h.tracks.bucket t.world
      interleaved-Backed reach = (Reach-IsSound reach idle-IsSound).backed
