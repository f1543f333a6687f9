-- ===== src/Handlers/Upload/Success.antt =====
-- The upload handler where no call fails.
use audio_streaming_service.Common.{
  ◌≡◌, ◌≢◌, refl, inl, inr, some, Bytes, ℤ, Result, ok, err, Error, Result-cases,
}
use audio_streaming_service.Handlers.{Request, Packages}
use audio_streaming_service.Handlers.Upload.{
  UploadHandler, Upload, hex_of, after_publish, after_create, after_put, after_object_id,
  new_object_id, upload,
}
use audio_streaming_service.Handlers.Upload.Calls.{ObjectIdOutcome, new_object_id-ObjectIdOutcome}
use audio_streaming_service.Handlers.Upload.Checks.{IsChecked, check_upload_of_IsChecked}
use audio_streaming_service.Handlers.Upload.Saga.{IsChecked-audio, upload_of_pass}
use audio_streaming_service.Repository.{Track}
use audio_streaming_service.Repository.Queries.{
  Row, CreateTrackParams, create_track_sql, create_args, one, create_track,
}
use audio_streaming_service.Repository.Tables.{inserted}
use audio_streaming_service.Repository.Tables.Rows.{scan_track-row_of, inserted-IsStored}
use audio_streaming_service.Services.{Observed, RandOutcome, InsertOutcome, IsStorage, IsDatabase}
use audio_streaming_service.Std.Strings.Laws.{IsOneOf}
use audio_streaming_service.Storage.{PutObjectInput, public_object_url, put_object}
use audio_streaming_service.TrackStorage.{stored_object, put_original}
use audio_streaming_service.TrackStorage.Keys.{audio_extensions}
use audio_streaming_service.TrackStorage.Keys.OriginalKeys.{
  layout, extension_of, original_key_of_IsSegment,
}

-- A call that reports no error
abbrev pub Succeeds : {W A : Type 0} → Result A × W → Type 0
Succeeds q = (x : Error) → q.0 ≢ err x

-- No call of the handler reports an error, and public URLs can be built.
pub record NoFailure {W : Type 0} (pkg : Packages W) (h : UploadHandler W) : Type 0 where
  pub draw : (w : W) → Succeeds (pkg.rand_read 16 w)
  pub put : (i : PutObjectInput) (w : W) → Succeeds (h.tracks.client.put_object i w)
  pub link : (key : Bytes) (x : Error) → public_object_url pkg.urls (some h.tracks) key ≢ err x
  pub insert :
      (p : CreateTrackParams) (w : W)
      → Succeeds (h.queries.query_row create_track_sql (create_args p) w)
  pub publish :
      (id path : Bytes) (priority : ℤ) (w : W)
      → Succeeds (h.jobs.publish_created id path priority w)

module _ {W : Type 0} (o : Observed W) (pkg : Packages W) (h : UploadHandler W)
    (database : IsDatabase o h.queries) (storage : IsStorage o h.tracks.client)
    (random : (w : W) → RandOutcome o 16 w (pkg.rand_read 16 w)) (works : NoFailure pkg h) where
  success-after_publish :
      (t : Track) (key : Bytes) (q : Result (Unit {0}) × W)
      → Succeeds q
      → (after_publish pkg h t key q).0.status ≡ 201
  unfolding after_publish
  success-after_publish t key (ok tt, w) s = refl
  success-after_publish t key (err x, w) s = absurd (s x refl)

  success-insert :
      (key : Bytes) (p : CreateTrackParams) (w : W) {q : Result Row × W}
      → InsertOutcome o p w q
      → Succeeds q
      → (after_create pkg h key (one q)).0.status ≡ 201
  unfolding after_create
  success-insert key p w (InsertOutcome.failed {e = x} same) s = absurd (s x refl)
  success-insert key p w (InsertOutcome.done id now fresh table) s =
      rw (scan_track-row_of (inserted p id now) (inserted-IsStored p id now))
        (success-after_publish (inserted p id now) key _ (works.publish _ _ _ _))

  success-stored_object :
      (u : Upload) (key : Bytes) (q : Result (Unit {0}) × W)
      → Succeeds q
      → (after_put pkg h u (stored_object pkg.urls h.tracks key u.body q)).0.status ≡ 201
  unfolding after_put create_track
  success-stored_object u key (err x, w) s = absurd (s x refl)
  success-stored_object u key (ok tt, w) s =
      elim (Result-cases (public_object_url pkg.urls (some h.tracks) key)) [
        | inl (url, built) ↦
            rw built (success-insert key _ w (database.insert _ w) (works.insert _ w))
        | inr (x, refused) ↦ absurd (works.link key x refused)
      ]

  success-after_object_id :
      (u : Upload)
      → IsOneOf (extension_of u.filename) audio_extensions
      → {w : W} {q : Result Bytes × W} → ObjectIdOutcome o w q
      → Succeeds q
      → (after_object_id pkg h u q).0.status ≡ 201
  unfolding after_object_id put_original put_object
  success-after_object_id u audio (ObjectIdOutcome.failed {x = x} same) s = absurd (s x refl)
  success-after_object_id u audio (ObjectIdOutcome.done {w' = w} id named same) s =
      rw (original_key_of_IsSegment id u.filename named audio)
        (success-stored_object u (layout id (extension_of u.filename)) _ (works.put _ w))

  drawn : (q : Result Bytes × W) → Succeeds q → Succeeds (hex_of q)
  drawn (ok b, w) s x = λ e. cc
  drawn (err y, w) s x = absurd (s y refl)

  -- Where the services keep their laws, no call reports an error and public URLs can be built, a
  -- request that passes the checks is answered 201.
  pub upload_succeeds :
      (r : Request) (w : W) (u : Upload) → IsChecked h.cfg r u → (upload pkg h r w).0.status ≡ 201
  unfolding new_object_id
  upload_succeeds r w u c = rw (upload_of_pass pkg h r w (check_upload_of_IsChecked h.cfg r u c)) (
      success-after_object_id u (IsChecked-audio h.cfg r u c)
        (new_object_id-ObjectIdOutcome o pkg random w) (drawn (pkg.rand_read 16 w) (works.draw w)))
