-- ===== src/Handlers/Upload/Contained.antt =====
-- What an upload can change at all, whichever of its calls and compensations fail.
use audio_streaming_service.Common.{
  ℕ, ℤ, ◌≡◌, refl, ap, ◌∙◌, false, [], ◌∷◌, none, Bytes, ◌⊎◌, inl, inr, Result,
}
use audio_streaming_service.Events.{Message}
use audio_streaming_service.Handlers.{Request, Response, Packages}
use audio_streaming_service.Handlers.Upload.{
  UploadHandler, Upload, check_upload, after_publish, after_create, after_put, after_object_id,
  upload,
}
use audio_streaming_service.Handlers.Upload.Calls.{
  CreateOutcome, create_track-CreateOutcome, delete-layout, delete-DeleteRowOutcome,
  OriginalOutcome, put_original-OriginalOutcome, ObjectIdOutcome, new_object_id-ObjectIdOutcome,
}
use audio_streaming_service.Handlers.Upload.Checks.{check_upload-IsChecked}
use audio_streaming_service.Handlers.Upload.Commit.{pending_track}
use audio_streaming_service.Handlers.Upload.Saga.{
  Check-cases, IsChecked-audio, upload_of_pass, upload_of_reply,
}
use audio_streaming_service.Repository.{Track}
use audio_streaming_service.Repository.Tables.{inserted, valid_uuid, select_by_id, delete_by_id}
use audio_streaming_service.Repository.Tables.Rows.{delete_by_id-inserted}
use audio_streaming_service.Services.{
  Observed, is_at, Untouched, Untouched-refl, Retabled, DeleteRowOutcome, PublishOutcome,
  RandOutcome, IsStorage, IsDatabase, IsPublisher,
}
use audio_streaming_service.Std.Strings.Laws.{IsOneOf}
use audio_streaming_service.TrackStorage.{StoredObject, delete}
use audio_streaming_service.TrackStorage.Keys.{audio_extensions}
use audio_streaming_service.TrackStorage.Keys.OriginalKeys.{layout, extension_of}
use audio_streaming_service.TrackStorage.Keys.Segments.{IsSegment}
use audio_streaming_service.Handlers.Upload.Effects.{
  IsContained, IsSilent, Untouched-IsSilent, IsSilent-Untouched, IsSilent-Rewritten,
  IsSilent-DeleteOutcome,
}

module _ {W : Type 0} (o : Observed W) (pkg : Packages W) (h : UploadHandler W)
    (Announces : Bytes → Bytes → ℤ → Message → Type 0) (publisher : IsPublisher o Announces h.jobs)
    (database : IsDatabase o h.queries) (storage : IsStorage o h.tracks.client) where
  module _ (u : Upload) (segment : Bytes) (named : IsSegment segment)
      (audio : IsOneOf (extension_of u.filename) audio_extensions) (w : W) where
    abbrev key : Bytes
    key = layout segment (extension_of u.filename)

    abbrev Silent : W → Type 0
    Silent = IsSilent o h.tracks.bucket key w

    -- A message is sent only with the answer 201.
    abbrev Bounded : Response × W → Type 0
    Bounded q =
        IsContained o h.tracks.bucket key w q.1 × ((q.0.status ≡ 201) ⊎ (o.jobs q.1 ≡ o.jobs w))

    Silent-delete : {v : W} → Silent v → Silent (delete h.tracks key v).1
    Silent-delete {v} s =
        rw
          (delete-layout o pkg.urls h.tracks storage segment (extension_of u.filename) named audio
            v)
          (IsSilent-DeleteOutcome o h.tracks.bucket key s (storage.delete h.tracks.bucket key v))

    -- The row that has been inserted is there, or deleted again.
    Silent-row :
        (id : Bytes) (now : ℕ) {v x : W}
        → o.tracks v ≡ o.tracks w
        → ((b k : Bytes) → is_at h.tracks.bucket key b k ≡ false → o.object x b k ≡ o.object w b k)
        → o.jobs x ≡ o.jobs w
        → select_by_id (valid_uuid id) (o.tracks w) ≡ none
        → o.tracks x ≡ inserted (pending_track u key) id now ∷ o.tracks w
        → {q : Result (Unit {0}) × W}
        → DeleteRowOutcome o (inserted (pending_track u key) id now).id x q
        → Silent q.1
    Silent-row id now same objects jobs fresh more (DeleteRowOutcome.failed r) = record {
      contained = record {
        tracks = inr (_, r.tracks ∙ more);
        objects = λ b k n. r.objects.at b k ∙ objects b k n;
      };
      jobs = r.jobs ∙ jobs;
    }
    Silent-row id now same objects jobs fresh more (DeleteRowOutcome.done r) = record {
      contained = record {
        tracks = inl (
            r.tracks
            ∙ ap (delete_by_id (inserted (pending_track u key) id now).id) more
            ∙ delete_by_id-inserted (pending_track u key) id now (o.tracks w) fresh);
        objects = λ b k n. r.objects.at b k ∙ objects b k n;
      };
      jobs = r.jobs ∙ jobs;
    }

    -- Behind a successful `PutOriginal`
    abbrev Placed : W → Type 0
    Placed v = Silent v × (o.tracks v ≡ o.tracks w)

    Bounded-after_publish :
        {v x : W}
        → Placed v
        → (id : Bytes) (now : ℕ) → select_by_id (valid_uuid id) (o.tracks v) ≡ none
        → Retabled o (inserted (pending_track u key) id now ∷ o.tracks v) v x
        → {q : Result (Unit {0}) × W}
        → PublishOutcome o Announces
            (pkg.uuid_string (valid_uuid id))
            key
            h.cfg.transcode_job_priority
            x
            q
        → Bounded (after_publish pkg h (inserted (pending_track u key) id now) key q)
    unfolding after_publish
    Bounded-after_publish (s, same) id now fresh table (PublishOutcome.done m a more) = (
      record {
        tracks = inr (
          _,
          more.tracks ∙ table.tracks ∙ ap (λ ts. inserted (pending_track u key) id now ∷ ts) same,
        );
        objects = λ b k n. more.objects.at b k ∙ table.objects.at b k ∙ s.contained.objects b k n;
      },
      inl refl,
    )
    Bounded-after_publish (s, same) id now fresh table (PublishOutcome.failed {w' = y} lost) =
        let s' = Silent-delete (
          Silent-row id now same
            (λ b k n. lost.objects.at b k ∙ table.objects.at b k ∙ s.contained.objects b k n)
            (lost.jobs ∙ table.jobs ∙ s.jobs) (rw same at fresh)
            (lost.tracks
              ∙ table.tracks
              ∙ ap (λ ts. inserted (pending_track u key) id now ∷ ts) same)
            (delete-DeleteRowOutcome o h.queries database _ y)) in
        (s'.contained, inr s'.jobs)

    Bounded-after_create :
        {v : W}
        → Placed v
        → {q : Result Track × W} → CreateOutcome o (pending_track u key) v q
        → Bounded (after_create pkg h key q)
    unfolding after_create inserted
    Bounded-after_create (s, same) (CreateOutcome.failed lost) =
        let s' = Silent-delete (IsSilent-Untouched o h.tracks.bucket key s lost) in
        (s'.contained, inr s'.jobs)
    Bounded-after_create placed (CreateOutcome.done id now fresh table) =
        Bounded-after_publish placed id now fresh table (publisher.publish _ _ _ _)

    Bounded-after_put :
        {v : W}
        → Untouched o w v
        → {q : Result StoredObject × W}
        → OriginalOutcome o pkg.urls h.tracks key u.body u.content_type v q
        → Bounded (after_put pkg h u q)
    unfolding after_put
    Bounded-after_put start (OriginalOutcome.failed lost) =
        let s' =
          IsSilent-Untouched o h.tracks.bucket key (Untouched-IsSilent o h.tracks.bucket key start)
            lost in
        (s'.contained, inr s'.jobs)
    Bounded-after_put start (OriginalOutcome.unlinked x bad put) =
        let s' =
          IsSilent-Rewritten o h.tracks.bucket key (Untouched-IsSilent o h.tracks.bucket key start)
            put in
        (s'.contained, inr s'.jobs)
    Bounded-after_put start (OriginalOutcome.stored url built put) =
        Bounded-after_create
          (
            IsSilent-Rewritten o h.tracks.bucket key
                (Untouched-IsSilent o h.tracks.bucket key start) put,
            put.tracks ∙ start.tracks,
          )
          (create_track-CreateOutcome o h.queries database _ _)

  -- The key is that of some file under some id.
  abbrev pub IsBounded : W → Response × W → Type 0
  IsBounded w q =
      (key : Bytes) × IsContained o h.tracks.bucket key w q.1
      × ((q.0.status ≡ 201) ⊎ (o.jobs q.1 ≡ o.jobs w))

  IsBounded-after_object_id :
      (u : Upload)
      → IsOneOf (extension_of u.filename) audio_extensions
      → (w : W) {q : Result Bytes × W} → ObjectIdOutcome o w q
      → IsBounded w (after_object_id pkg h u q)
  unfolding after_object_id
  IsBounded-after_object_id u audio w (ObjectIdOutcome.failed same) =
      let s = Untouched-IsSilent o h.tracks.bucket [] same in ([], s.contained, inr s.jobs)
  IsBounded-after_object_id u audio w (ObjectIdOutcome.done {w' = v} id named same) =
      let (contained, sent) = Bounded-after_put u id named audio w same (
        put_original-OriginalOutcome o pkg.urls h.tracks storage id u.filename named audio u.body
          u.content_type v) in
      (layout id (extension_of u.filename), contained, sent)

  -- Where the services keep their laws, and whichever of their calls fail, an upload adds at most
  -- one row, changes no other row and no object but at one key, and sends no message unless it is
  -- answered 201.
  pub upload-IsBounded :
      ((w : W) → RandOutcome o 16 w (pkg.rand_read 16 w))
      → (r : Request) (w : W) → IsBounded w (upload pkg h r w)
  upload-IsBounded random r w = elim (Check-cases (check_upload h.cfg r)) [
    | inl (x, e) ↦
        let s = Untouched-IsSilent o h.tracks.bucket [] (Untouched-refl o w) in
        rw (upload_of_reply pkg h r w e) ([], s.contained, inr s.jobs)
    | inr (u, e) ↦ rw (upload_of_pass pkg h r w e) (
        IsBounded-after_object_id u (IsChecked-audio h.cfg r u (check_upload-IsChecked h.cfg r u e))
          w (new_object_id-ObjectIdOutcome o pkg random w))
  ]
