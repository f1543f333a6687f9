-- ===== src/Handlers/Upload/Commit.antt =====
-- What a 201 of the upload handler says of the table, the bucket and the topic.
use audio_streaming_service.Common.{
  ℕ, ◌≡◌, refl, ap, ◌∙◌, [], ◌∷◌, ◌++◌, length, none, some, Bytes, codes, Result, arith,
  if◌then◌else◌, ℤ,
}
use audio_streaming_service.Events.{Message}
use audio_streaming_service.Handlers.{Response, Packages, json_response, upload_body}
use audio_streaming_service.Handlers.Upload.{
  UploadHandler, Upload, after_publish, after_create, after_put, after_object_id,
}
use audio_streaming_service.Handlers.Upload.Calls.{CreateOutcome, create_track-CreateOutcome}
use audio_streaming_service.Repository.{Track}
use audio_streaming_service.Repository.Queries.{CreateTrackParams}
use audio_streaming_service.Repository.Tables.{inserted, valid_uuid, select_by_id, at_time}
use audio_streaming_service.Services.{
  Observed, is_at, Untouched, Rewritten, Rewritten-after, Retabled, PublishOutcome, IsStorage,
  IsDatabase, IsPublisher,
}
use audio_streaming_service.Handlers.Upload.Calls.{
  stored_content, OriginalOutcome, put_original-OriginalOutcome, ObjectIdOutcome,
}
use audio_streaming_service.TrackStorage.{StoredObject}
use audio_streaming_service.TrackStorage.Keys.Segments.{IsSegment}
use audio_streaming_service.TrackStorage.Keys.{audio_extensions}
use audio_streaming_service.TrackStorage.Keys.OriginalKeys.{layout, extension_of}
use audio_streaming_service.Std.Strings.Laws.{IsOneOf}

-- The row that an upload asks for, stored under `key`
abbrev pub pending_track : Upload → Bytes → CreateTrackParams
pending_track u key = record {
  artist = u.artist;
  title = u.title;
  original_filename = u.filename;
  original_object_key = key;
  original_size = length u.body;
  status = codes "pending";
}

module _ {W : Type 0} (o : Observed W) (pkg : Packages W) (h : UploadHandler W)
    (Announces : Bytes → Bytes → ℤ → Message → Type 0) where
  -- One object, one row and one message more, which name one another.
  pub record IsCommitted (u : Upload) (key id : Bytes) (now : ℕ) (message : Message) (w : W)
      (q : Response × W) : Type 0 where
    pub fresh : select_by_id (valid_uuid id) (o.tracks w) ≡ none
    pub response :
        q.0
        ≡ json_response 201 (
            upload_body (record {
              track_id = pkg.uuid_string (valid_uuid id);
              artist = u.artist;
              title = u.title;
              original_filename = u.filename;
              status = codes "pending";
              uploaded_at = pkg.format_rfc3339 (at_time now);
            }))
    pub tracks : o.tracks q.1 ≡ inserted (pending_track u key) id now ∷ o.tracks w
    pub object :
        (b k : Bytes)
        → o.object q.1 b k ≡ (
            if is_at h.tracks.bucket key b k
            then some (stored_content u.body u.content_type)
            else o.object w b k)
    pub jobs : o.jobs q.1 ≡ o.jobs w ++ message ∷ []
    pub announced :
        Announces (pkg.uuid_string (valid_uuid id)) key h.cfg.transcode_job_priority message

  module _ (u : Upload) (key : Bytes) (w : W) where
    abbrev pub Commits : Response × W → Type 0
    Commits q =
        (id : Bytes) × (now : ℕ) × (message : Message) × IsCommitted u key id now message w q

    module _ {w1 w2 : W}
        (put : Rewritten o h.tracks.bucket key (some (stored_content u.body u.content_type)) w w1)
        (id : Bytes) (now : ℕ) (fresh : select_by_id (valid_uuid id) (o.tracks w1) ≡ none)
        (table : Retabled o (inserted (pending_track u key) id now ∷ o.tracks w1) w1 w2) where
      commit-after_publish :
          {q : Result (Unit {0}) × W}
          → PublishOutcome o Announces
              (pkg.uuid_string (valid_uuid id))
              key
              h.cfg.transcode_job_priority
              w2
              q
          → (after_publish pkg h (inserted (pending_track u key) id now) key q).0.status ≡ 201
          → Commits (after_publish pkg h (inserted (pending_track u key) id now) key q)
      unfolding after_publish inserted
      commit-after_publish (PublishOutcome.failed same) s = absurd (omega (arith, s))
      commit-after_publish (PublishOutcome.done m a more) s = (
        id,
        now,
        m,
        record {
          fresh = rw put.tracks at fresh;
          response = refl;
          tracks =
              more.tracks
              ∙ table.tracks
              ∙ ap (λ ts. inserted (pending_track u key) id now ∷ ts) put.tracks;
          object = λ b k. more.objects.at b k ∙ table.objects.at b k ∙ put.at b k;
          jobs = more.jobs ∙ ap (λ js. js ++ m ∷ []) (table.jobs ∙ put.jobs);
          announced = a;
        },
      )

  module _ (publisher : IsPublisher o Announces h.jobs) (database : IsDatabase o h.queries)
      (storage : IsStorage o h.tracks.client) (u : Upload) (w : W) where
    commit-after_create :
        (key : Bytes) {w1 : W}
        → Rewritten o h.tracks.bucket key (some (stored_content u.body u.content_type)) w w1
        → {q : Result Track × W} → CreateOutcome o (pending_track u key) w1 q
        → (after_create pkg h key q).0.status ≡ 201
        → Commits u key w (after_create pkg h key q)
    unfolding after_create inserted
    commit-after_create key put (CreateOutcome.failed same) s = absurd (omega (arith, s))
    commit-after_create key put (CreateOutcome.done id now fresh table) s =
        commit-after_publish u key w put id now fresh table (publisher.publish _ _ _ _) s

    commit-after_put :
        (key : Bytes) {w0 : W}
        → Untouched o w w0
        → {q : Result StoredObject × W}
        → OriginalOutcome o pkg.urls h.tracks key u.body u.content_type w0 q
        → (after_put pkg h u q).0.status ≡ 201
        → Commits u key w (after_put pkg h u q)
    unfolding after_put
    commit-after_put key start (OriginalOutcome.failed same) s = absurd (omega (arith, s))
    commit-after_put key start (OriginalOutcome.unlinked x bad put) s = absurd (omega (arith, s))
    commit-after_put key start (OriginalOutcome.stored url built put) s =
        commit-after_create key (Rewritten-after o start put)
          (create_track-CreateOutcome o h.queries database _ _) s

    pub commit-after_object_id :
        IsOneOf (extension_of u.filename) audio_extensions
        → {q : Result Bytes × W} → ObjectIdOutcome o w q
        → (after_object_id pkg h u q).0.status ≡ 201
        → (object_id : Bytes) × IsSegment object_id
          × Commits u (layout object_id (extension_of u.filename)) w (after_object_id pkg h u q)
    unfolding after_object_id
    commit-after_object_id audio (ObjectIdOutcome.failed same) s = absurd (omega (arith, s))
    commit-after_object_id audio (ObjectIdOutcome.done id named same) s = (
      id,
      named,
      commit-after_put (layout id (extension_of u.filename)) same
          (put_original-OriginalOutcome o pkg.urls h.tracks storage id u.filename named audio u.body
            u.content_type _)
          s,
    )
