-- ===== src/Handlers/Upload/Dangling.antt =====
-- The failure of a compensation that the upload handler ignores: the row cannot be deleted, and the
-- object is deleted all the same.
use audio_streaming_service.Common.{
  ℕ, bytes_eq, bytes_eq_iff, false, inl, inr, arith, codes, ◌≡◌, ◌≢◌, refl, ap, ◌∙◌, ◌∷◌, none,
  Bytes, ℤ, Result, ok,
}
use audio_streaming_service.Events.{Message}
use audio_streaming_service.Handlers.{Request, Response, Packages, internal_error}
use audio_streaming_service.Handlers.Upload.{
  UploadHandler, Upload, check_upload, after_publish, after_create, after_put, after_object_id,
  upload,
}
use audio_streaming_service.Handlers.Upload.Calls.{
  CreateOutcome, create_track-CreateOutcome, OriginalOutcome, put_original-OriginalOutcome,
  ObjectIdOutcome, new_object_id-ObjectIdOutcome, delete-layout, delete-DeleteRowOutcome,
}
use audio_streaming_service.Handlers.Upload.Checks.{IsChecked, check_upload-IsChecked}
use audio_streaming_service.Handlers.Upload.Rejections.{
  check_upload-status, IsRejection, IsRejection-status,
}
use audio_streaming_service.Config.{Config}
use audio_streaming_service.Handlers.Upload.Commit.{pending_track}
use audio_streaming_service.Handlers.Upload.Saga.{
  Check-cases, IsChecked-audio, upload_of_pass, upload_of_reply,
}
use audio_streaming_service.Repository.{Track, Uuid}
use audio_streaming_service.Repository.Queries.{delete_track_by_id}
use audio_streaming_service.Repository.Tables.{inserted}
use audio_streaming_service.Services.{
  Observed, is_at_refl, PublishOutcome, DeleteRowOutcome, DeleteOutcome, RandOutcome, IsStorage,
  IsDatabase, IsPublisher,
}
use audio_streaming_service.Std.Strings.Laws.{IsOneOf}
use audio_streaming_service.TrackStorage.{StoredObject}
use audio_streaming_service.TrackStorage.Keys.{audio_extensions}
use audio_streaming_service.TrackStorage.Keys.OriginalKeys.{layout, extension_of}
use audio_streaming_service.TrackStorage.Keys.Segments.{IsSegment}

rejected-ne-500 : (cfg : Config) (r : Request) (x : Response) → IsRejection cfg r x → x.status ≢ 500
rejected-ne-500 cfg r x rejected e = omega (arith, IsRejection-status cfg r x rejected)

-- No row can be deleted, and every object can be.
pub record IsStranding {W : Type 0} (h : UploadHandler W) : Type 0 where
  pub row : (id : Uuid) (w : W) → (delete_track_by_id h.queries id w).0 ≢ ok tt
  pub object : (b k : Bytes) (w : W) → (h.tracks.client.delete_object b k w).0 ≡ ok tt

abbrev pub unpublished : Response
unpublished = internal_error (codes "failed to enqueue transcode job")

internal_error-ne : (a b : Bytes) → bytes_eq a b ≡ false → internal_error a ≢ internal_error b
internal_error-ne a b differ e =
    let same : a ≡ b = cc in let e' = (bytes_eq_iff a b).1 same in cc (differ, e')

module _ {W : Type 0} (o : Observed W) (pkg : Packages W) (h : UploadHandler W)
    (Announces : Bytes → Bytes → ℤ → Message → Type 0) (publisher : IsPublisher o Announces h.jobs)
    (database : IsDatabase o h.queries) (storage : IsStorage o h.tracks.client)
    (random : (w : W) → RandOutcome o 16 w (pkg.rand_read 16 w)) where
  -- A row more, which names an object that is not there
  pub record IsDangling (u : Upload) (key : Bytes) (w : W) (q : Response × W) : Type 0 where
    pub id : Bytes
    pub now : ℕ
    pub tracks : o.tracks q.1 ≡ inserted (pending_track u key) id now ∷ o.tracks w
    pub object : o.object q.1 h.tracks.bucket key ≡ none

  module _ (strands : IsStranding h) (u : Upload) (segment : Bytes) (named : IsSegment segment)
      (audio : IsOneOf (extension_of u.filename) audio_extensions) (w : W) where
    abbrev key : Bytes
    key = layout segment (extension_of u.filename)

    object_gone :
        {v : W} {q : Result (Unit {0}) × W}
        → DeleteOutcome o h.tracks.bucket key v q
        → q.0 ≡ ok tt
        → (o.tracks q.1 ≡ o.tracks v) × (o.object q.1 h.tracks.bucket key ≡ none)
    object_gone (DeleteOutcome.failed same) e = cc
    object_gone (DeleteOutcome.done gone) e =
        (gone.tracks, gone.at h.tracks.bucket key ∙ rw (is_at_refl h.tracks.bucket key) refl)

    row_kept :
        {id : Uuid} {v : W} {q : Result (Unit {0}) × W}
        → DeleteRowOutcome o id v q
        → q.0 ≢ ok tt
        → o.tracks q.1 ≡ o.tracks v
    row_kept (DeleteRowOutcome.failed same) n = same.tracks
    row_kept (DeleteRowOutcome.done table) n = absurd (n refl)

    IsDangling-after_publish :
        (id : Bytes) (now : ℕ) {v : W}
        → o.tracks v ≡ inserted (pending_track u key) id now ∷ o.tracks w
        → {q : Result (Unit {0}) × W}
        → PublishOutcome o Announces
            (pkg.uuid_string (inserted (pending_track u key) id now).id)
            key
            h.cfg.transcode_job_priority
            v
            q
        → (after_publish pkg h (inserted (pending_track u key) id now) key q).0 ≡ unpublished
        → IsDangling u key w (after_publish pkg h (inserted (pending_track u key) id now) key q)
    unfolding after_publish
    IsDangling-after_publish id now more (PublishOutcome.done m a sent) n =
        absurd (omega (arith, ap (λ x. x.status) n))
    IsDangling-after_publish id now more (PublishOutcome.failed {w' = v} same) n =
        let t = inserted (pending_track u key) id now in
        let v' = (delete_track_by_id h.queries t.id v).1 in
        let kept =
          row_kept (delete-DeleteRowOutcome o h.queries database t.id v) (strands.row t.id v) in
        let (rows, gone) =
          object_gone (storage.delete h.tracks.bucket key v') (strands.object _ _ _) in
        let e =
          delete-layout o pkg.urls h.tracks storage segment (extension_of u.filename) named audio
            v' in
        record {
          id = id;
          now = now;
          tracks = rw e (rows ∙ kept ∙ same.tracks ∙ more);
          object = rw e gone;
        }

    IsDangling-after_create :
        {v : W}
        → o.tracks v ≡ o.tracks w
        → {q : Result Track × W} → CreateOutcome o (pending_track u key) v q
        → (after_create pkg h key q).0 ≡ unpublished
        → IsDangling u key w (after_create pkg h key q)
    unfolding after_create inserted bytes_eq
    IsDangling-after_create same (CreateOutcome.failed untouched) e =
        absurd (internal_error-ne _ _ refl e)
    IsDangling-after_create same (CreateOutcome.done id now fresh table) e =
        IsDangling-after_publish id now
          (table.tracks ∙ ap (λ ts. inserted (pending_track u key) id now ∷ ts) same)
          (publisher.publish _ _ _ _) e

    IsDangling-after_put :
        {v : W}
        → o.tracks v ≡ o.tracks w
        → {q : Result StoredObject × W}
        → OriginalOutcome o pkg.urls h.tracks key u.body u.content_type v q
        → (after_put pkg h u q).0 ≡ unpublished
        → IsDangling u key w (after_put pkg h u q)
    unfolding after_put bytes_eq
    IsDangling-after_put same (OriginalOutcome.failed untouched) e =
        absurd (internal_error-ne _ _ refl e)
    IsDangling-after_put same (OriginalOutcome.unlinked x bad put) e =
        absurd (internal_error-ne _ _ refl e)
    IsDangling-after_put same (OriginalOutcome.stored url built put) e =
        IsDangling-after_create (put.tracks ∙ same)
          (create_track-CreateOutcome o h.queries database _ _) e

  IsDangling-after_object_id :
      IsStranding h
      → (u : Upload) → IsOneOf (extension_of u.filename) audio_extensions
      → (w : W) {q : Result Bytes × W} → ObjectIdOutcome o w q
      → (after_object_id pkg h u q).0 ≡ unpublished
      → (id : Bytes) × IsSegment id
        × IsDangling u (layout id (extension_of u.filename)) w (after_object_id pkg h u q)
  unfolding after_object_id bytes_eq
  IsDangling-after_object_id strands u audio w (ObjectIdOutcome.failed same) e =
      absurd (internal_error-ne _ _ refl e)
  IsDangling-after_object_id strands u audio w (ObjectIdOutcome.done id named same) e = (
    id,
    named,
    IsDangling-after_put strands u id named audio w same.tracks
        (put_original-OriginalOutcome o pkg.urls h.tracks storage id u.filename named audio u.body
          u.content_type _)
        e,
  )

  -- Where no row can be deleted and every object can, an upload that is answered with the failure to
  -- enqueue the job leaves a row more in the table, which names an object that is not in the bucket.
  pub upload-IsDangling :
      IsStranding h
      → (r : Request) (w : W) → (upload pkg h r w).0 ≡ unpublished
      → (u : Upload) × IsChecked h.cfg r u
        × (id : Bytes) × IsSegment id
        × IsDangling u (layout id (extension_of u.filename)) w (upload pkg h r w)
  upload-IsDangling strands r w e = elim (Check-cases (check_upload h.cfg r)) [
    | inl (x, refused) ↦ absurd (
        rejected-ne-500 h.cfg r x (check_upload-status h.cfg r refused)
          (ap (λ y. y.status) (rw (upload_of_reply pkg h r w refused) at e)))
    | inr (u, passed) ↦
        let c = check_upload-IsChecked h.cfg r u passed in
        let q = upload_of_pass pkg h r w passed in
        let (id, named, facts) =
          IsDangling-after_object_id strands u (IsChecked-audio h.cfg r u c) w
            (new_object_id-ObjectIdOutcome o pkg random w) (rw q at e) in
        (u, c, id, named, rw q facts)
  ]
