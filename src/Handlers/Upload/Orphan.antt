-- ===== src/Handlers/Upload/Orphan.antt =====
-- The one failure of the upload handler that is not compensated: `PutOriginal` has stored the
-- object and then fails to build its public URL.
use audio_streaming_service.Common.{◌≡◌, ◌≢◌, refl, some, Bytes, Result, ok, err, Error, length}
use audio_streaming_service.Handlers.{Request, Response, Packages}
use audio_streaming_service.Handlers.Upload.{
  UploadHandler, Upload, pass, check_upload, after_put, after_object_id, new_object_id, upload,
}
use audio_streaming_service.Handlers.Upload.Calls.{
  stored_content, ObjectIdOutcome, put_object-layout, new_object_id-ObjectIdOutcome,
}
use audio_streaming_service.Handlers.Upload.Checks.{check_upload-IsChecked}
use audio_streaming_service.Handlers.Upload.Saga.{IsChecked-audio, upload_of_pass}
use audio_streaming_service.Services.{
  Observed, Rewritten, Rewritten-after, PutOutcome, RandOutcome, IsStorage,
}
use audio_streaming_service.Std.Strings.Laws.{IsOneOf}
use audio_streaming_service.Storage.{PutObjectInput, public_object_url, put_object}
use audio_streaming_service.TrackStorage.{or_octet_stream, stored_object, put_original}
use audio_streaming_service.TrackStorage.Keys.{audio_extensions}
use audio_streaming_service.TrackStorage.Keys.OriginalKeys.{
  layout, extension_of, original_key_of_IsSegment,
}
use audio_streaming_service.TrackStorage.Keys.Segments.{IsSegment}

module _ {W : Type 0} (o : Observed W) (pkg : Packages W) (h : UploadHandler W)
    (storage : IsStorage o h.tracks.client)
    (random : (w : W) → RandOutcome o 16 w (pkg.rand_read 16 w))
    (broken : (key : Bytes)
      → (x : Error) × (public_object_url pkg.urls (some h.tracks) key ≡ err x)) where
  -- Answered 500, with an object of the upload added under the id.
  abbrev pub IsOrphaned : Upload → Bytes → W → Response × W → Type 0
  IsOrphaned u id w q =
      (q.0.status ≡ 500)
      × Rewritten o h.tracks.bucket (layout id (extension_of u.filename))
          (some (stored_content u.body u.content_type)) w q.1

  orphan-stored_object :
      (u : Upload) (id : Bytes) {w : W} {q : Result (Unit {0}) × W}
      → PutOutcome o
          (record {
            bucket = h.tracks.bucket;
            key = layout id (extension_of u.filename);
            body = u.body;
            content_length = length u.body;
            content_type = or_octet_stream u.content_type;
          })
          w
          q
      → q.0 ≡ ok tt
      → IsOrphaned u id w (
          after_put pkg h u
            (stored_object pkg.urls h.tracks (layout id (extension_of u.filename)) u.body q))
  unfolding after_put
  orphan-stored_object u id (PutOutcome.failed same) works = cc
  orphan-stored_object u id (PutOutcome.done put) works =
      let (x, bad) = broken (layout id (extension_of u.filename)) in rw bad (refl, put)

  module _ (works : (i : PutObjectInput) (w : W) → (h.tracks.client.put_object i w).0 ≡ ok tt)
      (u : Upload) (audio : IsOneOf (extension_of u.filename) audio_extensions) where
    orphan-put_original :
        (id : Bytes)
        → IsSegment id
        → (w : W)
        → IsOrphaned u id w (
            after_put pkg h u
              (put_original pkg.urls h.tracks id u.filename u.body u.content_type w))
    unfolding put_original put_object
    orphan-put_original id named w = rw (original_key_of_IsSegment id u.filename named audio) (
        orphan-stored_object u id
          (put_object-layout o pkg.urls h.tracks storage id (extension_of u.filename) named audio
            u.body (or_octet_stream u.content_type) w)
          (works _ w))

    orphan-after_object_id :
        {w : W} {q : Result Bytes × W}
        → ObjectIdOutcome o w q
        → ((x : Error) → q.0 ≢ err x)
        → (id : Bytes) × (q.0 ≡ ok id) × IsOrphaned u id w (after_object_id pkg h u q)
    unfolding after_object_id
    orphan-after_object_id (ObjectIdOutcome.failed {x = x} same) drawn = absurd (drawn x refl)
    orphan-after_object_id (ObjectIdOutcome.done {w' = w'} id named same) drawn =
        let (status, put) = orphan-put_original id named w' in
        (id, refl, (status, Rewritten-after o same put))

  -- Where no public URL can be built, and storing and drawing the id report no error, a request
  -- that passes the checks is answered 500, and its object stays in the bucket under the generated
  -- id, with nothing else changed.
  pub upload_orphans :
      ((i : PutObjectInput) (w : W) → (h.tracks.client.put_object i w).0 ≡ ok tt)
      → (r : Request) (w : W) (u : Upload) → check_upload h.cfg r ≡ pass u
      → ((x : Error) → (new_object_id pkg w).0 ≢ err x)
      → (id : Bytes) × ((new_object_id pkg w).0 ≡ ok id) × IsOrphaned u id w (upload pkg h r w)
  upload_orphans works r w u e drawn = rw (upload_of_pass pkg h r w e) (
      orphan-after_object_id works u
        (IsChecked-audio h.cfg r u (check_upload-IsChecked h.cfg r u e))
        (new_object_id-ObjectIdOutcome o pkg random w) drawn)
