-- ===== src/Handlers/Upload/Interleaved/Tellings.antt =====
-- What one call of an upload does to the rows of the others and to the topic of jobs.
use audio_streaming_service.Common.{
  ◌≡◌, ◌≢◌, refl, sym, ap, ◌∙◌, [], ◌∷◌, ◌++◌, none, some, Bytes, Result, In, ℤ, Result-cases, inl,
  inr,
}
use audio_streaming_service.Events.{Message}
use audio_streaming_service.Handlers.{Request, Response, Packages}
use audio_streaming_service.Handlers.Upload.{
  UploadHandler, Upload, Check, reply, pass, check_upload, new_track_params,
}
use audio_streaming_service.Handlers.Upload.Calls.{
  OriginalOutcome, put_original-OriginalOutcome, CreateOutcome, create_track-CreateOutcome,
  ObjectIdOutcome, new_object_id-ObjectIdOutcome, delete-DeleteRowOutcome,
}
use audio_streaming_service.Handlers.Upload.Interleaved.{holder}
use audio_streaming_service.Handlers.Upload.Interleaved.Owned.{
  Owns, Spares, Spares-inserted, Spares-deleted, inserted-IsOwn, Owns-same, Owns-Spares,
}
use audio_streaming_service.Handlers.Upload.Interleaved.Promises.{Apart, Fine}
use audio_streaming_service.Handlers.Upload.Steps.{
  Progress, arrived, drawing, storing, inserting, publishing, deleting_row, deleting_object,
  answered, step, checked, drawn, placed, saved, sent,
}
use audio_streaming_service.Repository.{Track}
use audio_streaming_service.Services.{
  Observed, DeleteOutcome, PublishOutcome, DeleteRowOutcome, RandOutcome, IsStorage, IsDatabase,
  IsPublisher,
}
use audio_streaming_service.Storage.{delete_object}
use audio_streaming_service.TrackStorage.{StoredObject, delete}
use audio_streaming_service.TrackStorage.Keys.{validate_key}

module _ {W : Type 0} (o : Observed W) (pkg : Packages W) (h : UploadHandler W)
    (Announces : Bytes → Bytes → ℤ → Message → Type 0) where
  -- The messages that a call adds: none, or one for a row whose request then ends.
  pub data Telling (p : Progress) (w : W) : Progress × W → Type 0 where
    silent : {p' : Progress} {w' : W} → o.jobs w' ≡ o.jobs w → Telling p w (p', w')
    told :
        {p' : Progress} {w' : W} (t : Track) (m : Message) (priority : ℤ)
        → holder p ≡ some t.original_object_key
        → holder p' ≡ none
        → In t (o.tracks w')
        → Announces (pkg.uuid_string t.id) t.original_object_key priority m
        → o.jobs w' ≡ o.jobs w ++ m ∷ []
        → Telling p w (p', w')

  pub record Told (p : Progress) (w : W) (x : Progress × W) : Type 0 where
    pub owns : Owns o x.0 x.1
    pub others : (q : Progress) → Apart p q → Owns o q w → Owns o q x.1
    pub row :
        (t : Track)
        → holder p ≢ some t.original_object_key
        → In t (o.tracks w)
        → In t (o.tracks x.1)
    pub telling : Telling p w x

  same-Told :
      (p p' : Progress) {w w' : W}
      → o.tracks w' ≡ o.tracks w
      → Owns o p' w
      → Telling p w (p', w')
      → Told p w (p', w')
  same-Told p p' same owns telling = record {
    owns = Owns-same o same p' owns;
    others = λ q apart f. Owns-same o same q f;
    row = λ t n i. rw same i;
    telling = telling;
  }

  Spares-Told :
      (p p' : Progress) (key : Bytes) {w w' : W}
      → holder p ≡ some key
      → Spares o key w w'
      → Owns o p' w'
      → o.jobs w' ≡ o.jobs w
      → Told p w (p', w')
  Spares-Told p p' key has spares owns jobs = record {
    owns = owns;
    others = λ q apart f. Owns-Spares o spares q (apart key has) f;
    row = λ t n i. spares.row t (λ e. n (has ∙ ap some (sym e))) i;
    telling = silent jobs;
  }

  checked-Told : (r : Request) (w : W) (c : Check Upload) → Told (arrived r) w (checked pkg h c w)
  checked-Told r w (reply x) = same-Told (arrived r) _ refl tt (silent refl)
  checked-Told r w (pass u) = same-Told (arrived r) _ refl tt (silent refl)

  drawn-Told :
      (u : Upload) (w : W) {q : Result Bytes × W}
      → ObjectIdOutcome o w q
      → Told (drawing u) w (drawn pkg h u q)
  drawn-Told u w (ObjectIdOutcome.failed same) =
      same-Told (drawing u) _ same.tracks tt (silent same.jobs)
  drawn-Told u w (ObjectIdOutcome.done id named same) =
      same-Told (drawing u) _ same.tracks tt (silent same.jobs)

  placed-Told :
      (u : Upload) (id key : Bytes) (w : W) {q : Result StoredObject × W}
      → OriginalOutcome o pkg.urls h.tracks key u.body u.content_type w q
      → Told (storing u id) w (placed pkg h u q)
  placed-Told u id key w (OriginalOutcome.failed same) =
      same-Told (storing u id) _ same.tracks tt (silent same.jobs)
  placed-Told u id key w (OriginalOutcome.unlinked x bad put) =
      same-Told (storing u id) _ put.tracks tt (silent put.jobs)
  placed-Told u id key w (OriginalOutcome.stored url built put) =
      same-Told (storing u id) _ put.tracks tt (silent put.jobs)

  saved-Told :
      (u : Upload) (s : StoredObject) (w : W)
      → Fine o h.tracks.bucket (inserting u s) w
      → {q : Result Track × W} → CreateOutcome o (new_track_params u s) w q
      → Told (inserting u s) w (saved pkg h s.key q)
  saved-Told u s w f (CreateOutcome.failed same) =
      same-Told (inserting u s) _ same.tracks tt (silent same.jobs)
  saved-Told u s w (k, has, free) (CreateOutcome.done id now fresh table) =
      Spares-Told (inserting u s) _ s.key refl
        (Spares-inserted o (new_track_params u s) id now fresh table.tracks)
        (inserted-IsOwn o (new_track_params u s) id now fresh table.tracks) table.jobs

  sent-Told :
      (t : Track) (key : Bytes) (w : W)
      → Owns o (publishing t key) w
      → {priority : ℤ} {q : Result (Unit {0}) × W}
      → PublishOutcome o Announces (pkg.uuid_string t.id) t.original_object_key priority w q
      → Told (publishing t key) w (sent pkg h t key q)
  sent-Told t key w owns (PublishOutcome.failed same) =
      same-Told (publishing t key) _ same.tracks owns (silent same.jobs)
  sent-Told t key w (named, i, own) {priority} (PublishOutcome.done m a more) =
      same-Told (publishing t key) _ more.tracks tt
        (told t m priority (ap some (sym named)) refl (rw more.tracks i) a more.jobs)

  row_deleted-Told :
      (t : Track) (key : Bytes) (x : Response) (w : W)
      → Owns o (deleting_row t key) w
      → {q : Result (Unit {0}) × W} → DeleteRowOutcome o t.id w q
      → Told (deleting_row t key) w (deleting_object x key, q.1)
  row_deleted-Told t key x w owns (DeleteRowOutcome.failed same) =
      same-Told (deleting_row t key) _ same.tracks tt (silent same.jobs)
  row_deleted-Told t key x w owns (DeleteRowOutcome.done table) =
      Spares-Told (deleting_row t key) _ key refl (Spares-deleted o t key owns table.tracks) tt
        table.jobs

  deleted-Told :
      (x : Response) (key sent_key : Bytes) (w : W) {q : Result (Unit {0}) × W}
      → DeleteOutcome o h.tracks.bucket sent_key w q
      → Told (deleting_object x key) w (answered x, q.1)
  deleted-Told x key sent_key w (DeleteOutcome.failed same) =
      same-Told (deleting_object x key) _ same.tracks tt (silent same.jobs)
  deleted-Told x key sent_key w (DeleteOutcome.done gone) =
      same-Told (deleting_object x key) _ gone.tracks tt (silent gone.jobs)

  module _ (publisher : IsPublisher o Announces h.jobs) (database : IsDatabase o h.queries)
      (storage : IsStorage o h.tracks.client)
      (random : (w : W) → RandOutcome o 16 w (pkg.rand_read 16 w)) where
    delete-Told :
        (x : Response) (key : Bytes) (w : W)
        → Told (deleting_object x key) w (answered x, (delete h.tracks key w).1)
    unfolding delete delete_object
    delete-Told x key w = elim (Result-cases (validate_key key)) [
      | inl (done, e) ↦ rw e (deleted-Told x key _ w (storage.delete _ _ w))
      | inr (y, e) ↦ rw e (same-Told (deleting_object x key) (answered x) refl tt (silent refl))
    ]

    pub step-Told :
        (p : Progress) (w : W) → Fine o h.tracks.bucket p w → Owns o p w → Told p w (step pkg h p w)
    unfolding step
    step-Told (arrived r) w f owns = checked-Told r w (check_upload h.cfg r)
    step-Told (drawing u) w f owns = drawn-Told u w (new_object_id-ObjectIdOutcome o pkg random w)
    step-Told (storing u id) w (named, audio, free) owns = placed-Told u id _ w (
        put_original-OriginalOutcome o pkg.urls h.tracks storage id u.filename named audio u.body
          u.content_type w)
    step-Told (inserting u s) w f owns =
        saved-Told u s w f
          (create_track-CreateOutcome o h.queries database (new_track_params u s) w)
    step-Told (publishing t key) w f owns =
        sent-Told t key w owns (publisher.publish (pkg.uuid_string t.id) t.original_object_key _ w)
    step-Told (deleting_row t key) w f owns =
        row_deleted-Told t key _ w owns (delete-DeleteRowOutcome o h.queries database t.id w)
    step-Told (deleting_object x key) w f owns = delete-Told x key w
    step-Told (answered x) w f owns = same-Told (answered x) (answered x) refl tt (silent refl)
