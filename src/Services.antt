-- ===== src/Services.antt =====
-- What the service relies on of the database, the object storage, the message broker and the
-- random source: which rows, objects and messages a client of theirs can observe, and what each
-- call does to them. A call that reports an error is taken to have had no effect.
use audio_streaming_service.Common.{
  ℕ, ◌<◌, ◌≡◌, ◌≢◌, refl, ap, ◌∙◌, Bool, ◌&&◌, List, [], ◌∷◌, ◌++◌, map, length, Option, none, some,
  Bytes, bytes_eq, bytes_eq_iff, true, arith, Error, no_rows, Result, ok, err, ℤ, if◌then◌else◌,
  All,
}
use mathlib.Core.List.{Perm}
use audio_streaming_service.Events.{Message, TranscodePublisher}
use audio_streaming_service.Repository.{Uuid, Track, TrackStatus, text}
use audio_streaming_service.Repository.Queries.{
  create_track_sql, delete_track_by_id_sql, get_track_by_id_sql, list_tracks_by_status_sql, Row,
  Rows, Dbtx, CreateTrackParams, create_args, id_arg,
}
use audio_streaming_service.Repository.Tables.{
  inserted, valid_uuid, select_by_id, delete_by_id, with_status,
}
use audio_streaming_service.Repository.Tables.Rows.{row_of, IsStored}
use audio_streaming_service.Storage.{PutObjectInput, S3Client}

pub record Content : Type 0 where
  pub body : Bytes
  pub content_type : Bytes

pub record Observed (W : Type 0) : Type 0 where
  -- the table `tracks`
  pub tracks : W → List Track
  -- the object of a bucket and a key
  pub object : W → Bytes → Bytes → Option Content
  -- the messages of the topic of transcode jobs
  pub jobs : W → List Message

abbrev pub is_at : Bytes → Bytes → Bytes → Bytes → Bool
is_at bucket key b k = bytes_eq bucket b && bytes_eq key k

pub is_at_refl : (bucket key : Bytes) → is_at bucket key bucket key ≡ true
is_at_refl bucket key = ground (arith, bytes_eq_iff bucket bucket, bytes_eq_iff key key)

-- Uploaded later is listed first.
abbrev pub NewestFirst : List Track → Type 0
NewestFirst [] = Unit
NewestFirst (t ∷ ts) = All (λ u. ¬ (t.uploaded_at.time < u.uploaded_at.time)) ts × NewestFirst ts

module _ {W : Type 0} (o : Observed W) where
  pub record SameObjects (w w' : W) : Type 0 where
    pub at : (b k : Bytes) → o.object w' b k ≡ o.object w b k

  -- Nothing that can be observed has changed.
  pub record Untouched (w w' : W) : Type 0 where
    pub tracks : o.tracks w' ≡ o.tracks w
    pub objects : SameObjects w w'
    pub jobs : o.jobs w' ≡ o.jobs w

  pub Untouched-refl : (w : W) → Untouched w w
  Untouched-refl w = record { tracks = refl; objects = record { at = λ b k. refl }; jobs = refl }

  pub Untouched-trans : {u v w : W} → Untouched u v → Untouched v w → Untouched u w
  Untouched-trans f g = record {
    tracks = g.tracks ∙ f.tracks;
    objects = record { at = λ b k. g.objects.at b k ∙ f.objects.at b k };
    jobs = g.jobs ∙ f.jobs;
  }

  -- Only the object at one key has changed, to `c`.
  pub record Rewritten (bucket key : Bytes) (c : Option Content) (w w' : W) : Type 0 where
    pub tracks : o.tracks w' ≡ o.tracks w
    pub at : (b k : Bytes) → o.object w' b k ≡ (if is_at bucket key b k then c else o.object w b k)
    pub jobs : o.jobs w' ≡ o.jobs w

  pub Rewritten-after :
      {bucket key : Bytes} {c : Option Content} {u v w : W}
      → Untouched u v
      → Rewritten bucket key c v w
      → Rewritten bucket key c u w
  Rewritten-after {bucket} {key} {c} f r = record {
    tracks = r.tracks ∙ f.tracks;
    at = λ b k. r.at b k ∙ ap (λ x. if is_at bucket key b k then c else x) (f.objects.at b k);
    jobs = r.jobs ∙ f.jobs;
  }

  abbrev pub content_of : PutObjectInput → Content
  content_of i = record { body = i.body; content_type = i.content_type }

  pub data PutOutcome (i : PutObjectInput) (w : W) : Result (Unit {0}) × W → Type 0 where
    failed : {e : Error} {w' : W} → Untouched w w' → PutOutcome i w (err e, w')
    done :
        {w' : W} → Rewritten i.bucket i.key (some (content_of i)) w w' → PutOutcome i w (ok tt, w')

  pub data DeleteOutcome (bucket key : Bytes) (w : W) : Result (Unit {0}) × W → Type 0 where
    failed : {e : Error} {w' : W} → Untouched w w' → DeleteOutcome bucket key w (err e, w')
    done : {w' : W} → Rewritten bucket key none w w' → DeleteOutcome bucket key w (ok tt, w')

  -- The clients of the AWS SDK
  pub record IsStorage (client : S3Client W) : Type 0 where
    pub put : (i : PutObjectInput) (w : W) → PutOutcome i w (client.put_object i w)
    pub delete : (b k : Bytes) (w : W) → DeleteOutcome b k w (client.delete_object b k w)
    pub presign_get :
        (b k : Bytes) (expires : ℕ) (w : W)
        → Untouched w (client.presign_get_object b k expires w).1

  -- Only the table has changed, to `ts`.
  pub record Retabled (ts : List Track) (w w' : W) : Type 0 where
    pub tracks : o.tracks w' ≡ ts
    pub objects : SameObjects w w'
    pub jobs : o.jobs w' ≡ o.jobs w

  pub data InsertOutcome (p : CreateTrackParams) (w : W) : Result Row × W → Type 0 where
    failed : {e : Error} {w' : W} → Untouched w w' → InsertOutcome p w (err e, w')
    -- `id` is a primary key.
    done :
        {w' : W} (id : Bytes) (now : ℕ)
        → select_by_id (valid_uuid id) (o.tracks w) ≡ none
        → Retabled (inserted p id now ∷ o.tracks w) w w'
        → InsertOutcome p w (ok (row_of (inserted p id now)), w')

  pub data DeleteRowOutcome (id : Uuid) (w : W) : Result (Unit {0}) × W → Type 0 where
    failed : {e : Error} {w' : W} → Untouched w w' → DeleteRowOutcome id w (err e, w')
    done :
        {w' : W} → Retabled (delete_by_id id (o.tracks w)) w w' → DeleteRowOutcome id w (ok tt, w')

  pub data SelectOutcome (id : Uuid) (w : W) : Result Row × W → Type 0 where
    failed : {e : Error} {w' : W} → e ≢ no_rows → Untouched w w' → SelectOutcome id w (err e, w')
    missing :
        {w' : W}
        → select_by_id id (o.tracks w) ≡ none
        → Untouched w w'
        → SelectOutcome id w (err no_rows, w')
    found :
        {w' : W} (t : Track)
        → select_by_id id (o.tracks w) ≡ some t
        → IsStored t
        → Untouched w w'
        → SelectOutcome id w (ok (row_of t), w')

  -- A SELECT of the rows `wanted`, ORDER BY uploaded_at DESC
  pub data ListOutcome (wanted : List Track) (w : W) : Result Rows × W → Type 0 where
    failed : {e : Error} {w' : W} → Untouched w w' → ListOutcome wanted w (err e, w')
    -- the connection is lost between two rows
    broken :
        {w' : W} (rows : Rows) (e : Error)
        → rows.failure ≡ some e
        → Untouched w w'
        → ListOutcome wanted w (ok rows, w')
    listed :
        {w' : W} (ts : List Track)
        → Perm ts wanted
        → NewestFirst ts
        → All IsStored ts
        → Untouched w w'
        → ListOutcome wanted w (ok (record { fetched = map row_of ts; failure = none }), w')

  -- PostgreSQL behind the pool, for the statements that the handlers run
  pub record IsDatabase (db : Dbtx W) : Type 0 where
    pub insert :
        (p : CreateTrackParams) (w : W)
        → InsertOutcome p w (db.query_row create_track_sql (create_args p) w)
    pub delete :
        (id : Uuid) (w : W)
        → DeleteRowOutcome id w (db.exec delete_track_by_id_sql (id_arg id ∷ []) w)
    pub select :
        (id : Uuid) (w : W)
        → SelectOutcome id w (db.query_row get_track_by_id_sql (id_arg id ∷ []) w)
    pub list :
        (status : TrackStatus) (w : W)
        → ListOutcome
            (with_status status (o.tracks w))
            w
            (db.query list_tracks_by_status_sql (text status ∷ []) w)

  pub data RandOutcome (n : ℕ) (w : W) : Result Bytes × W → Type 0 where
    failed : {e : Error} {w' : W} → Untouched w w' → RandOutcome n w (err e, w')
    done :
        {w' : W} (bs : Bytes)
        → length bs ≡ n
        → All (λ b. b < 256) bs
        → Untouched w w'
        → RandOutcome n w (ok bs, w')

  -- One message more in the topic, or none
  pub record Appended (m : Message) (w w' : W) : Type 0 where
    pub tracks : o.tracks w' ≡ o.tracks w
    pub objects : SameObjects w w'
    pub jobs : o.jobs w' ≡ o.jobs w ++ m ∷ []

  module _ (Announces : Bytes → Bytes → ℤ → Message → Type 0) where
    pub data PublishOutcome (track_id path : Bytes) (priority : ℤ) (w : W)
        : Result (Unit {0}) × W → Type 0 where
      failed :
          {e : Error} {w' : W}
          → Untouched w w'
          → PublishOutcome track_id path priority w (err e, w')
      done :
          {w' : W} (m : Message)
          → Announces track_id path priority m
          → Appended m w w'
          → PublishOutcome track_id path priority w (ok tt, w')

    -- What the handler relies on of a `TranscodePublisher`
    pub record IsPublisher (jobs : TranscodePublisher W) : Type 0 where
      pub publish :
          (track_id path : Bytes) (priority : ℤ) (w : W)
          → PublishOutcome track_id path priority w (jobs.publish_created track_id path priority w)
