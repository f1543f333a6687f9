-- ===== src/Handlers/Upload/Interleaved/Moves.antt =====
-- What one call of an upload does to the rows, the objects and the requests beside it.
use audio_streaming_service.Common.{◌≡◌, ◌≢◌, refl, sym, ◌∙◌, some, Bytes, Result, ok, All-map, ℤ}
use audio_streaming_service.Events.{Message}
use audio_streaming_service.Handlers.{Request, Response, Packages}
use audio_streaming_service.Handlers.Upload.{
  UploadHandler, Upload, Check, reply, pass, check_upload, new_object_id, new_track_params,
}
use audio_streaming_service.Handlers.Upload.Calls.{OriginalOutcome, CreateOutcome, ObjectIdOutcome}
use audio_streaming_service.Handlers.Upload.Interleaved.{holder, Backed, IsNewFor, IsUnused}
use audio_streaming_service.Handlers.Upload.Interleaved.Effect.{
  IsLocal, Rewritten-IsLocal, Rewritten-HasObject, inserted-IsLocal, deleted-IsLocal, Backed-kept,
  Backed-Unnamed, Backed-same,
}
use audio_streaming_service.Handlers.Upload.Interleaved.Promises.{
  Apart, Fine, Fine-other, Fine-same, HasObject-same,
}
use audio_streaming_service.Handlers.Upload.Steps.{
  Progress, arrived, drawing, storing, inserting, publishing, deleting_row, deleting_object,
  answered, checked, drawn, placed, saved, sent,
}
use audio_streaming_service.Handlers.Upload.Checks.{check_upload-IsChecked}
use audio_streaming_service.Handlers.Upload.Saga.{IsChecked-audio}
use audio_streaming_service.Std.Strings.Laws.{IsOneOf}
use audio_streaming_service.TrackStorage.{StoredObject}
use audio_streaming_service.TrackStorage.Keys.{audio_extensions}
use audio_streaming_service.TrackStorage.Keys.OriginalKeys.{layout, extension_of}
use audio_streaming_service.Repository.{Track}
use audio_streaming_service.Repository.Tables.Rows.{has_id-inserted, delete_by_id-All_others}
use audio_streaming_service.Services.{
  Observed, SameObjects, Untouched-refl, DeleteOutcome, PublishOutcome, DeleteRowOutcome,
}

module _ {W : Type 0} (o : Observed W) (pkg : Packages W) (h : UploadHandler W) where
  -- A call keeps the promises of its own request and of those that have no key in common with it.
  pub record Moved (p : Progress) (w : W) (x : Progress × W) : Type 0 where
    pub fine : Fine o h.tracks.bucket x.0 x.1
    pub backed : Backed o h.tracks.bucket x.1
    pub others :
        (q : Progress) → Apart p q → Fine o h.tracks.bucket q w → Fine o h.tracks.bucket q x.1
    pub apart : (q : Progress) → IsNewFor o pkg h p w q → Apart p q → Apart x.0 q

  -- A request that holds a key, or has dropped it, afterwards
  abbrev Held : Progress → Progress → Type 0
  Held p p' = (k : Bytes) → holder p' ≡ some k → holder p ≡ some k

  IsLocal-Moved :
      (p p' : Progress) (key : Bytes) {w w' : W}
      → holder p ≡ some key
      → Held p p'
      → IsLocal o h.tracks.bucket key w w'
      → Fine o h.tracks.bucket p' w'
      → Backed o h.tracks.bucket w'
      → Moved p w (p', w')
  IsLocal-Moved p p' key has held local fine backed = record {
    fine = fine;
    backed = backed;
    others = λ q apart f. Fine-other o h.tracks.bucket local q (apart key has) f;
    apart = λ q new apart k e. apart k (held k e);
  }

  pub same-Moved :
      (p p' : Progress) {w w' : W}
      → Held p p'
      → o.tracks w' ≡ o.tracks w
      → SameObjects o w w'
      → Backed o h.tracks.bucket w
      → Fine o h.tracks.bucket p' w
      → Moved p w (p', w')
  same-Moved p p' held rows objects backed fine = record {
    fine = Fine-same o h.tracks.bucket rows objects p' fine;
    backed = Backed-same o h.tracks.bucket rows objects backed;
    others = λ q apart f. Fine-same o h.tracks.bucket rows objects q f;
    apart = λ q new apart k e. apart k (held k e);
  }

  pub checked-Moved :
      (r : Request) (w : W)
      → Backed o h.tracks.bucket w
      → (c : Check Upload) → check_upload h.cfg r ≡ c
      → Moved (arrived r) w (checked pkg h c w)
  checked-Moved r w backed (reply x) e =
      same-Moved (arrived r) (answered x) (λ k e. e) refl (Untouched-refl o w).objects backed tt
  checked-Moved r w backed (pass u) e =
      same-Moved (arrived r) (drawing u) (λ k e. e) refl (Untouched-refl o w).objects backed
        (IsChecked-audio h.cfg r u (check_upload-IsChecked h.cfg r u e))

  pub drawn-Moved :
      (u : Upload) (w : W)
      → IsOneOf (extension_of u.filename) audio_extensions
      → IsUnused o pkg h (drawing u) w
      → Backed o h.tracks.bucket w
      → {q : Result Bytes × W} → ObjectIdOutcome o w q
      → (new_object_id pkg w).0 ≡ q.0
      → Moved (drawing u) w (drawn pkg h u q)
  drawn-Moved u w audio unused backed (ObjectIdOutcome.failed same) e =
      same-Moved (drawing u) _ (λ k e. e) same.tracks same.objects backed tt
  drawn-Moved u w audio unused backed (ObjectIdOutcome.done id named same) e = record {
    fine = (named, audio, rw same.tracks (unused u id refl e));
    backed = Backed-same o h.tracks.bucket same.tracks same.objects backed;
    others = λ q apart f. Fine-same o h.tracks.bucket same.tracks same.objects q f;
    apart = λ q new apart k e' e''. new u id refl e (e'' ∙ sym e');
  }

  pub placed-Moved :
      (u : Upload) (id : Bytes) (w : W)
      → Fine o h.tracks.bucket (storing u id) w
      → Backed o h.tracks.bucket w
      → {q : Result StoredObject × W}
      → OriginalOutcome o pkg.urls h.tracks
          (layout id (extension_of u.filename))
          u.body
          u.content_type
          w
          q
      → Moved (storing u id) w (placed pkg h u q)
  placed-Moved u id w f backed (OriginalOutcome.failed same) =
      same-Moved (storing u id) _ (λ k e. cc) same.tracks same.objects backed tt
  placed-Moved u id w f backed (OriginalOutcome.unlinked x bad put) =
      let local = Rewritten-IsLocal o h.tracks.bucket put in
      IsLocal-Moved (storing u id) _ _ refl (λ k e. cc) local tt
        (Backed-kept o h.tracks.bucket local (Rewritten-HasObject o h.tracks.bucket put) backed)
  placed-Moved u id w (named, audio, free) backed (OriginalOutcome.stored url built put) =
      let local = Rewritten-IsLocal o h.tracks.bucket put in
      let there = Rewritten-HasObject o h.tracks.bucket put in
      IsLocal-Moved (storing u id) _ _ refl (λ k e. e) local
        ((id, extension_of u.filename, named, audio, refl), there, rw put.tracks free)
        (Backed-kept o h.tracks.bucket local there backed)

  pub saved-Moved :
      (u : Upload) (s : StoredObject) (w : W)
      → Fine o h.tracks.bucket (inserting u s) w
      → Backed o h.tracks.bucket w
      → {q : Result Track × W} → CreateOutcome o (new_track_params u s) w q
      → Moved (inserting u s) w (saved pkg h s.key q)
  saved-Moved u s w (k, has, free) backed (CreateOutcome.failed same) =
      same-Moved (inserting u s) _ (λ k e. e) same.tracks same.objects backed (k, free)
  saved-Moved u s w (k, has, free) backed (CreateOutcome.done id now fresh table) =
      let local = inserted-IsLocal o h.tracks.bucket (new_track_params u s) id now table in
      let there = HasObject-same o h.tracks.bucket table.objects s.key has in
      IsLocal-Moved (inserting u s) _ _ refl (λ k e. e) local
        (
          k,
          there,
          rw table.tracks (
            (λ e. has_id-inserted (new_track_params u s) id now),
            All-map (λ r n e. absurd (n e)) (o.tracks w) free,
          ),
        )
        (Backed-kept o h.tracks.bucket local there backed)

  pub sent-Moved :
      (t : Track) (key : Bytes) (w : W)
      → Fine o h.tracks.bucket (publishing t key) w
      → Backed o h.tracks.bucket w
      → {Announces : Bytes → Bytes → ℤ → Message → Type 0} {track_id path : Bytes} {priority : ℤ}
        {q : Result (Unit {0}) × W}
      → PublishOutcome o Announces track_id path priority w q
      → Moved (publishing t key) w (sent pkg h t key q)
  sent-Moved t key w f backed (PublishOutcome.failed same) =
      same-Moved (publishing t key) _ (λ k e. e) same.tracks same.objects backed f
  sent-Moved t key w f backed (PublishOutcome.done m a more) =
      same-Moved (publishing t key) _ (λ k e. cc) more.tracks more.objects backed tt

  pub row_deleted-Moved :
      (t : Track) (key : Bytes) (x : Response) (w : W)
      → Fine o h.tracks.bucket (deleting_row t key) w
      → Backed o h.tracks.bucket w
      → {q : Result (Unit {0}) × W} → DeleteRowOutcome o t.id w q
      → q.0 ≡ ok tt
      → Moved (deleting_row t key) w (deleting_object x key, q.1)
  row_deleted-Moved t key x w f backed (DeleteRowOutcome.failed same) e = cc
  row_deleted-Moved t key x w (k, has, only) backed (DeleteRowOutcome.done table) e =
      let local = deleted-IsLocal o h.tracks.bucket key t.id table in
      IsLocal-Moved (deleting_row t key) _ key refl (λ k e. e) local
        (
          k,
          rw table.tracks (
              delete_by_id-All_others (λ r. r.original_object_key ≢ key) t.id (o.tracks w)
                (All-map (λ r named other e. let here = named e in cc) (o.tracks w) only)),
        )
        (Backed-kept o h.tracks.bucket local
          (HasObject-same o h.tracks.bucket table.objects key has) backed)

  pub deleted-Moved :
      (x : Response) (key : Bytes) (w : W)
      → Fine o h.tracks.bucket (deleting_object x key) w
      → Backed o h.tracks.bucket w
      → {q : Result (Unit {0}) × W} → DeleteOutcome o h.tracks.bucket key w q
      → Moved (deleting_object x key) w (answered x, q.1)
  deleted-Moved x key w f backed (DeleteOutcome.failed same) =
      same-Moved (deleting_object x key) _ (λ k e. cc) same.tracks same.objects backed tt
  deleted-Moved x key w (k, free) backed (DeleteOutcome.done gone) =
      let local = Rewritten-IsLocal o h.tracks.bucket gone in
      IsLocal-Moved (deleting_object x key) _ key refl (λ k e. cc) local tt
        (Backed-Unnamed o h.tracks.bucket local (rw gone.tracks free) backed)
