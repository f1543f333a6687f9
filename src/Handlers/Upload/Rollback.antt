-- ===== src/Handlers/Upload/Rollback.antt =====
-- The compensations of the upload handler: an upload that fails leaves nothing behind, as long as
-- the two deletions go through and the public URL can be built.
use audio_streaming_service.Common.{
  ◌≡◌, ◌≢◌, refl, ap, ◌∙◌, ◌∷◌, none, some, Bytes, Result, ok, ℕ, ℤ, if◌then◌else◌,
}
use audio_streaming_service.Events.{Message}
use audio_streaming_service.Handlers.{Packages}
use audio_streaming_service.Handlers.Upload.{
  UploadHandler, Upload, after_publish, after_create, after_put,
}
use audio_streaming_service.Handlers.Upload.Calls.{
  stored_content, restored, CreateOutcome, create_track-CreateOutcome, delete-layout,
  delete-DeleteRowOutcome, OriginalOutcome,
}
use audio_streaming_service.Handlers.Upload.Commit.{pending_track}
use audio_streaming_service.Repository.{Uuid, Track}
use audio_streaming_service.Repository.Queries.{delete_track_by_id}
use audio_streaming_service.Repository.Tables.{inserted, valid_uuid, select_by_id, delete_by_id}
use audio_streaming_service.Repository.Tables.Rows.{delete_by_id-inserted}
use audio_streaming_service.Services.{
  Observed, is_at, Untouched, Rewritten, Retabled, DeleteOutcome, DeleteRowOutcome, PublishOutcome,
  IsStorage, IsDatabase, IsPublisher,
}
use audio_streaming_service.Std.Strings.Laws.{IsOneOf}
use audio_streaming_service.Storage.{public_object_url}
use audio_streaming_service.TrackStorage.{StoredObject, delete}
use audio_streaming_service.TrackStorage.Keys.{audio_extensions}
use audio_streaming_service.TrackStorage.Keys.OriginalKeys.{layout, extension_of}
use audio_streaming_service.TrackStorage.Keys.Segments.{IsSegment}

module _ {W : Type 0} (o : Observed W) where
  deleted :
      {bucket key : Bytes} {w : W} {q : Result (Unit {0}) × W}
      → DeleteOutcome o bucket key w q
      → q.0 ≡ ok tt
      → Rewritten o bucket key none w q.1
  deleted (DeleteOutcome.failed same) works = cc
  deleted (DeleteOutcome.done r) works = r

  row_deleted :
      {id : Uuid} {w : W} {q : Result (Unit {0}) × W}
      → DeleteRowOutcome o id w q
      → q.0 ≡ ok tt
      → Retabled o (delete_by_id id (o.tracks w)) w q.1
  row_deleted (DeleteRowOutcome.failed same) works = cc
  row_deleted (DeleteRowOutcome.done r) works = r

-- The two deletions of the compensations report no error.
pub record DeletesWork {W : Type 0} (h : UploadHandler W) : Type 0 where
  pub object : (b k : Bytes) (w : W) → (h.tracks.client.delete_object b k w).0 ≡ ok tt
  pub row : (id : Uuid) (w : W) → (delete_track_by_id h.queries id w).0 ≡ ok tt

module _ {W : Type 0} (o : Observed W) (pkg : Packages W) (h : UploadHandler W)
    (Announces : Bytes → Bytes → ℤ → Message → Type 0) (publisher : IsPublisher o Announces h.jobs)
    (database : IsDatabase o h.queries) (storage : IsStorage o h.tracks.client)
    (works : DeletesWork h) (u : Upload) (segment : Bytes) (named : IsSegment segment)
    (audio : IsOneOf (extension_of u.filename) audio_extensions) (w : W)
    (unused : o.object w h.tracks.bucket (layout segment (extension_of u.filename)) ≡ none) where
  abbrev key : Bytes
  key = layout segment (extension_of u.filename)

  abbrev Stored : W → Type 0
  Stored = Rewritten o h.tracks.bucket key (some (stored_content u.body u.content_type)) w

  delete-Rewritten : (w' : W) → Rewritten o h.tracks.bucket key none w' (delete h.tracks key w').1
  delete-Rewritten w' =
      rw
        (delete-layout o pkg.urls h.tracks storage segment (extension_of u.filename) named audio w')
        (deleted o (storage.delete h.tracks.bucket key w') (works.object h.tracks.bucket key w'))

  -- The object is written and deleted again; what else the two worlds show is the same.
  delete-Untouched :
      {w1 w2 : W}
      → Stored w1
      → o.tracks w2 ≡ o.tracks w
      → ((b k : Bytes) → o.object w2 b k ≡ o.object w1 b k)
      → o.jobs w2 ≡ o.jobs w
      → Untouched o w (delete h.tracks key w2).1
  delete-Untouched {w1} {w2} put tracks object jobs =
      let d = delete-Rewritten w2 in
      record {
        tracks = d.tracks ∙ tracks;
        objects = record {
          at = λ b k.
              d.at b k
              ∙ ap (λ x. if is_at h.tracks.bucket key b k then none else x)
                  (object b k ∙ put.at b k)
              ∙ restored h.tracks.bucket key b k (stored_content u.body u.content_type) (o.object w)
                  unused;
        };
        jobs = d.jobs ∙ jobs;
      }

  rollback-after_publish :
      {w1 w2 : W}
      → Stored w1
      → (id : Bytes) (now : ℕ) → select_by_id (valid_uuid id) (o.tracks w1) ≡ none
      → Retabled o (inserted (pending_track u key) id now ∷ o.tracks w1) w1 w2
      → {q : Result (Unit {0}) × W}
      → PublishOutcome o Announces
          (pkg.uuid_string (valid_uuid id))
          key
          h.cfg.transcode_job_priority
          w2
          q
      → (after_publish pkg h (inserted (pending_track u key) id now) key q).0.status ≢ 201
      → Untouched o w (after_publish pkg h (inserted (pending_track u key) id now) key q).1
  unfolding after_publish
  rollback-after_publish put id now fresh table (PublishOutcome.done m a more) s = absurd (s refl)
  rollback-after_publish {w1} put id now fresh table (PublishOutcome.failed {w' = w3} same) s =
      let t = inserted (pending_track u key) id now in
      let r =
        row_deleted o (delete-DeleteRowOutcome o h.queries database t.id w3) (works.row t.id w3) in
      delete-Untouched put
        (r.tracks
          ∙ ap (delete_by_id t.id) (same.tracks ∙ table.tracks)
          ∙ delete_by_id-inserted (pending_track u key) id now (o.tracks w1) fresh
          ∙ put.tracks)
        (λ b k. r.objects.at b k ∙ same.objects.at b k ∙ table.objects.at b k)
        (r.jobs ∙ same.jobs ∙ table.jobs ∙ put.jobs)

  rollback-after_create :
      {w1 : W}
      → Stored w1
      → {q : Result Track × W} → CreateOutcome o (pending_track u key) w1 q
      → (after_create pkg h key q).0.status ≢ 201
      → Untouched o w (after_create pkg h key q).1
  unfolding after_create inserted
  rollback-after_create put (CreateOutcome.failed same) s =
      delete-Untouched put (same.tracks ∙ put.tracks) same.objects.at (same.jobs ∙ put.jobs)
  rollback-after_create put (CreateOutcome.done id now fresh table) s =
      rollback-after_publish put id now fresh table (publisher.publish _ _ _ _) s

  pub rollback-after_put :
      {url : Bytes}
      → public_object_url pkg.urls (some h.tracks) key ≡ ok url
      → {q : Result StoredObject × W}
      → OriginalOutcome o pkg.urls h.tracks key u.body u.content_type w q
      → (after_put pkg h u q).0.status ≢ 201
      → Untouched o w (after_put pkg h u q).1
  unfolding after_put
  rollback-after_put built (OriginalOutcome.failed same) s = same
  rollback-after_put built (OriginalOutcome.unlinked x bad put) s = cc
  rollback-after_put built (OriginalOutcome.stored url _ put) s =
      rollback-after_create put (create_track-CreateOutcome o h.queries database _ _) s
