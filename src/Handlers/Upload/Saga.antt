-- ===== src/Handlers/Upload/Saga.antt =====
-- The upload handler as a whole.
use audio_streaming_service.Common.{
  ◌≡◌, ◌≢◌, refl, ap, ◌∙◌, none, some, Bytes, ◌⊎◌, inl, inr, Result, ok, err, arith, ℤ,
}
use audio_streaming_service.Config.{Config}
use audio_streaming_service.Events.{Message}
use audio_streaming_service.Handlers.{Request, Response, Packages}
use audio_streaming_service.Handlers.Upload.{
  UploadHandler, Upload, Check, reply, pass, check_upload, after_publish, after_create, after_put,
  after_object_id, new_object_id, upload,
}
use audio_streaming_service.Handlers.Upload.Calls.{
  ObjectIdOutcome, new_object_id-ObjectIdOutcome, is_supported_audio-IsOneOf,
  put_original-OriginalOutcome,
}
use audio_streaming_service.Handlers.Upload.Checks.{
  IsChecked, is_supported_audio_iff, check_upload-IsChecked,
}
use audio_streaming_service.Handlers.Upload.Rejections.{
  check_upload-status, IsRejection, IsRejection-status,
}
use audio_streaming_service.Handlers.Upload.Commit.{Commits, commit-after_object_id}
use audio_streaming_service.Handlers.Upload.Rollback.{DeletesWork, rollback-after_put}
use audio_streaming_service.Repository.{Track}
use audio_streaming_service.TrackStorage.{StoredObject}
use audio_streaming_service.Services.{
  Observed, Untouched, Untouched-refl, Untouched-trans, RandOutcome, IsStorage, IsDatabase,
  IsPublisher,
}
use audio_streaming_service.Std.Strings.Laws.{IsOneOf}
use audio_streaming_service.Storage.{public_object_url}
use audio_streaming_service.TrackStorage.Keys.{audio_extensions}
use audio_streaming_service.TrackStorage.Keys.OriginalKeys.{layout, extension_of}
use audio_streaming_service.TrackStorage.Keys.Segments.{IsSegment}

pub Check-cases :
    (c : Check Upload) → ((x : Response) × (c ≡ reply x)) ⊎ ((u : Upload) × (c ≡ pass u))
Check-cases (reply x) = inl (x, refl)
Check-cases (pass u) = inr (u, refl)

pub IsChecked-audio :
    (cfg : Config) (r : Request) (u : Upload)
    → IsChecked cfg r u
    → IsOneOf (extension_of u.filename) audio_extensions
IsChecked-audio cfg r u c = rw c.filename (
    is_supported_audio-IsOneOf c.part.filename
      ((is_supported_audio_iff c.part.filename).1 c.supported))

rejected-ne-201 : (cfg : Config) (r : Request) (x : Response) → IsRejection cfg r x → x.status ≢ 201
rejected-ne-201 cfg r x rejected e = omega (arith, IsRejection-status cfg r x rejected)

module _ {W : Type 0} (pkg : Packages W) (h : UploadHandler W) (r : Request) (w : W) where
  pub upload_of_reply : {x : Response} → check_upload h.cfg r ≡ reply x → upload pkg h r w ≡ (x, w)
  unfolding upload
  upload_of_reply e = rw e refl

  pub upload_of_pass :
      {u : Upload}
      → check_upload h.cfg r ≡ pass u
      → upload pkg h r w ≡ after_object_id pkg h u (new_object_id pkg w)
  unfolding upload
  upload_of_pass e = rw e refl

-- Behind the checks the answer is 201 or 500.
module _ {W : Type 0} (pkg : Packages W) (h : UploadHandler W) where
  abbrev IsDone : Response × W → Type 0
  IsDone q = (q.0.status ≡ 201) ⊎ (q.0.status ≡ 500)

  after_publish-IsDone :
      (t : Track) (key : Bytes) (q : Result (Unit {0}) × W) → IsDone (after_publish pkg h t key q)
  unfolding after_publish
  after_publish-IsDone t key (ok tt, w) = inl refl
  after_publish-IsDone t key (err e, w) = inr refl

  after_create-IsDone : (key : Bytes) (q : Result Track × W) → IsDone (after_create pkg h key q)
  unfolding after_create
  after_create-IsDone key (ok t, w) = after_publish-IsDone t key _
  after_create-IsDone key (err e, w) = inr refl

  after_put-IsDone : (u : Upload) (q : Result StoredObject × W) → IsDone (after_put pkg h u q)
  unfolding after_put
  after_put-IsDone u (ok stored, w) = after_create-IsDone stored.key _
  after_put-IsDone u (err e, w) = inr refl

  after_object_id-IsDone : (u : Upload) (q : Result Bytes × W) → IsDone (after_object_id pkg h u q)
  unfolding after_object_id
  after_object_id-IsDone u (ok id, w) = after_put-IsDone u _
  after_object_id-IsDone u (err e, w) = inr refl

  -- An answer other than 201 and 500 leaves the world as it is. It is 413 where reading the form
  -- takes more bytes than the limit, or where the query or the form is malformed. Where neither is
  -- so, it is 400 where the artist or the title, trimmed, is empty or longer than 255 bytes; and
  -- where both are fine, 400 where there is no file, or it has a supported name and cannot be read,
  -- and 415 where its name is not supported.
  pub upload_rejects :
      (r : Request) (w : W)
      → (upload pkg h r w).0.status ≢ 201
      → (upload pkg h r w).0.status ≢ 500
      → ((upload pkg h r w).1 ≡ w) × IsRejection h.cfg r (upload pkg h r w).0
  upload_rejects r w s s' = elim (Check-cases (check_upload h.cfg r)) [
    | inl (x, e) ↦ rw (upload_of_reply pkg h r w e) (refl, check_upload-status h.cfg r e)
    | inr (u, e) ↦
        let q = upload_of_pass pkg h r w e in
        elim (after_object_id-IsDone u (new_object_id pkg w)) [
          | inl done ↦ absurd (s (ap (λ p. p.0.status) q ∙ done))
          | inr failed ↦ absurd (s' (ap (λ p. p.0.status) q ∙ failed))
        ]
  ]

module _ {W : Type 0} (o : Observed W) (pkg : Packages W) (h : UploadHandler W)
    (Announces : Bytes → Bytes → ℤ → Message → Type 0) (publisher : IsPublisher o Announces h.jobs)
    (database : IsDatabase o h.queries) (storage : IsStorage o h.tracks.client)
    (random : (w : W) → RandOutcome o 16 w (pkg.rand_read 16 w)) (r : Request) (w : W) where
  -- Where the services keep their laws, a 201 is answered only for a request that passes the
  -- checks; then the bucket holds the file under one key, with no other object changed, and there
  -- are one row and one message more than before, with the data of the request, that key and one
  -- new id, which the answer names.
  pub upload-IsCommitted :
      (upload pkg h r w).0.status ≡ 201
      → (u : Upload) × IsChecked h.cfg r u
        × (object_id : Bytes) × IsSegment object_id
        × Commits o pkg h Announces u
            (layout object_id (extension_of u.filename))
            w
            (upload pkg h r w)
  upload-IsCommitted s = elim (Check-cases (check_upload h.cfg r)) [
    | inl (x, e) ↦ absurd (
        rejected-ne-201 h.cfg r x (check_upload-status h.cfg r e)
          (rw (upload_of_reply pkg h r w e) at s))
    | inr (u, e) ↦
        let c = check_upload-IsChecked h.cfg r u e in
        let q = upload_of_pass pkg h r w e in
        let (id, named, facts) =
          commit-after_object_id o pkg h Announces publisher database storage u w
            (IsChecked-audio h.cfg r u c) (new_object_id-ObjectIdOutcome o pkg random w)
            (rw q at s) in
        (u, c, id, named, rw q facts)
  ]

  rollback-after_object_id :
      ((key : Bytes) → (url : Bytes) × (public_object_url pkg.urls (some h.tracks) key ≡ ok url))
      → DeletesWork h
      → (u : Upload) → IsOneOf (extension_of u.filename) audio_extensions
      → {p : Result Bytes × W} → ObjectIdOutcome o w p
      → ((id e : Bytes) → p.0 ≡ ok id → o.object w h.tracks.bucket (layout id e) ≡ none)
      → (after_object_id pkg h u p).0.status ≢ 201
      → Untouched o w (after_object_id pkg h u p).1
  unfolding after_object_id
  rollback-after_object_id links works u audio (ObjectIdOutcome.failed same) unused s = same
  rollback-after_object_id links works u audio (ObjectIdOutcome.done {w' = w'} id named same) unused
        s =
      let e = extension_of u.filename in
      let (url, built) = links (layout id e) in
      Untouched-trans o same (
        rollback-after_put o pkg h Announces publisher database storage works u id named audio w'
          (same.objects.at h.tracks.bucket (layout id e) ∙ unused id e refl) built
          (put_original-OriginalOutcome o pkg.urls h.tracks storage id u.filename named audio u.body
            u.content_type w')
          s)

  -- Where the services keep their laws, no object stands under the generated id, public URLs can
  -- be built and the compensating deletions report no error, an answer other than 201 leaves the
  -- table, every object and the topic as they were.
  pub upload-Untouched :
      ((key : Bytes) → (url : Bytes) × (public_object_url pkg.urls (some h.tracks) key ≡ ok url))
      → DeletesWork h
      → ((id e : Bytes)
          → (new_object_id pkg w).0 ≡ ok id
          → o.object w h.tracks.bucket (layout id e) ≡ none)
      → (upload pkg h r w).0.status ≢ 201
      → Untouched o w (upload pkg h r w).1
  upload-Untouched links works unused s = elim (Check-cases (check_upload h.cfg r)) [
    | inl (x, e) ↦ rw (upload_of_reply pkg h r w e) (Untouched-refl o w)
    | inr (u, e) ↦
        let q = upload_of_pass pkg h r w e in
        rw q (
          rollback-after_object_id links works u
            (IsChecked-audio h.cfg r u (check_upload-IsChecked h.cfg r u e))
            (new_object_id-ObjectIdOutcome o pkg random w) unused (rw q at s))
  ]
