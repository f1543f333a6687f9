-- ===== src/Handlers/Upload/Interleaved/Bounds.antt =====
-- The lengths of the texts in the table, which declares them VARCHAR(255), under uploads that run at
-- the same time.
use audio_streaming_service.Common.{
  ℕ, ◌≤◌, ◌≡◌, ◌≢◌, refl, [], length, Bytes, Result, All, ℤ, Result-cases, inl, inr,
}
use audio_streaming_service.Events.{Message}
use audio_streaming_service.Handlers.{Request, Response, Packages}
use audio_streaming_service.Handlers.Upload.{
  UploadHandler, Upload, Check, reply, pass, check_upload, new_track_params,
}
use audio_streaming_service.Handlers.Upload.Calls.{
  OriginalOutcome, put_original-OriginalOutcome, CreateOutcome, create_track-CreateOutcome,
  ObjectIdOutcome, new_object_id-ObjectIdOutcome, delete-DeleteRowOutcome,
}
use audio_streaming_service.Handlers.Upload.Checks.{check_upload-IsChecked}
use audio_streaming_service.Handlers.Upload.Interleaved.{
  System, Step, Reach, request, call, start, later,
}
use audio_streaming_service.Handlers.Upload.Interleaved.Updates.{update-All}
use audio_streaming_service.Handlers.Upload.Saga.{IsChecked-audio}
use audio_streaming_service.Handlers.Upload.Steps.{
  Progress, arrived, drawing, storing, inserting, publishing, deleting_row, deleting_object,
  answered, step, checked, drawn, placed, saved, sent,
}
use audio_streaming_service.Repository.{Track, Uuid}
use audio_streaming_service.Repository.Tables.{inserted}
use audio_streaming_service.Repository.Tables.Rows.{delete_by_id-All}
use audio_streaming_service.Services.{
  Observed, DeleteOutcome, PublishOutcome, DeleteRowOutcome, RandOutcome, IsStorage, IsDatabase,
  IsPublisher,
}
use audio_streaming_service.Std.Strings.Laws.{IsOneOf}
use audio_streaming_service.Storage.{delete_object}
use audio_streaming_service.TrackStorage.{StoredObject, delete}
use audio_streaming_service.TrackStorage.Keys.{audio_extensions, validate_key}
use audio_streaming_service.TrackStorage.Keys.OriginalKeys.{extension_of}
use audio_streaming_service.TrackStorage.Keys.Segments.{IsSegment}

-- A text that is not empty and fits its column
abbrev pub Fits : Bytes → Type 0
Fits s = (s ≢ []) × (length s ≤ 255)

abbrev pub IsLabelled : Track → Type 0
IsLabelled t = Fits t.artist × Fits t.title

-- An upload that has been checked
abbrev pub IsAdmitted : Upload → Type 0
IsAdmitted u = Fits u.artist × Fits u.title × IsOneOf (extension_of u.filename) audio_extensions

abbrev pub Admitted : Progress → Type 0
Admitted (arrived r) = Unit
Admitted (drawing u) = IsAdmitted u
Admitted (storing u id) = IsSegment id × IsAdmitted u
Admitted (inserting u s) = IsAdmitted u
Admitted (publishing t key) = Unit
Admitted (deleting_row t key) = Unit
Admitted (deleting_object x key) = Unit
Admitted (answered x) = Unit

abbrev pub Labelled : {W : Type 0} → Observed W → W → Type 0
Labelled o w = All IsLabelled (o.tracks w)

module _ {W : Type 0} (o : Observed W) (pkg : Packages W) (h : UploadHandler W) where
  abbrev Labels : Progress × W → Type 0
  Labels x = Admitted x.0 × Labelled o x.1

  kept : {v w : W} → o.tracks w ≡ o.tracks v → Labelled o v → Labelled o w
  kept same ls = rw same ls

  Labels-checked :
      (r : Request) (w : W)
      → Labelled o w
      → (c : Check Upload) → check_upload h.cfg r ≡ c
      → Labels (checked pkg h c w)
  Labels-checked r w ls (reply x) e = (tt, ls)
  Labels-checked r w ls (pass u) e =
      let c = check_upload-IsChecked h.cfg r u e in
      (
        (
          (c.artist.full, c.artist.short),
          (c.title.full, c.title.short),
          IsChecked-audio h.cfg r u c,
        ),
        ls,
      )

  Labels-drawn :
      (u : Upload) (w : W)
      → IsAdmitted u
      → Labelled o w
      → {q : Result Bytes × W} → ObjectIdOutcome o w q
      → Labels (drawn pkg h u q)
  Labels-drawn u w a ls (ObjectIdOutcome.failed same) = (tt, kept same.tracks ls)
  Labels-drawn u w a ls (ObjectIdOutcome.done id named same) = ((named, a), kept same.tracks ls)

  Labels-placed :
      (u : Upload) (key : Bytes) (w : W)
      → IsAdmitted u
      → Labelled o w
      → {q : Result StoredObject × W}
      → OriginalOutcome o pkg.urls h.tracks key u.body u.content_type w q
      → Labels (placed pkg h u q)
  Labels-placed u key w a ls (OriginalOutcome.failed same) = (tt, kept same.tracks ls)
  Labels-placed u key w a ls (OriginalOutcome.unlinked x bad put) = (tt, kept put.tracks ls)
  Labels-placed u key w a ls (OriginalOutcome.stored url built put) = (a, kept put.tracks ls)

  Labels-saved :
      (u : Upload) (s : StoredObject) (w : W)
      → IsAdmitted u
      → Labelled o w
      → {q : Result Track × W} → CreateOutcome o (new_track_params u s) w q
      → Labels (saved pkg h s.key q)
  unfolding inserted
  Labels-saved u s w a ls (CreateOutcome.failed same) = (tt, kept same.tracks ls)
  Labels-saved u s w (artist, title, audio) ls (CreateOutcome.done id now fresh table) =
      (tt, rw table.tracks ((artist, title), ls))

  Labels-sent :
      (t : Track) (key : Bytes) (w : W)
      → Labelled o w
      → {Announces : Bytes → Bytes → ℤ → Message → Type 0} {track_id path : Bytes} {priority : ℤ}
        {q : Result (Unit {0}) × W}
      → PublishOutcome o Announces track_id path priority w q
      → Labels (sent pkg h t key q)
  Labels-sent t key w ls (PublishOutcome.failed same) = (tt, kept same.tracks ls)
  Labels-sent t key w ls (PublishOutcome.done m a more) = (tt, kept more.tracks ls)

  Labelled-row_deleted :
      (id : Uuid) (w : W)
      → Labelled o w
      → {q : Result (Unit {0}) × W} → DeleteRowOutcome o id w q
      → Labelled o q.1
  Labelled-row_deleted id w ls (DeleteRowOutcome.failed same) = kept same.tracks ls
  Labelled-row_deleted id w ls (DeleteRowOutcome.done table) =
      rw table.tracks (delete_by_id-All IsLabelled id (o.tracks w) ls)

  Labelled-deleted :
      (key : Bytes) (w : W)
      → Labelled o w
      → {q : Result (Unit {0}) × W} → DeleteOutcome o h.tracks.bucket key w q
      → Labelled o q.1
  Labelled-deleted key w ls (DeleteOutcome.failed same) = kept same.tracks ls
  Labelled-deleted key w ls (DeleteOutcome.done gone) = kept gone.tracks ls

  module _ {Announces : Bytes → Bytes → ℤ → Message → Type 0}
      (publisher : IsPublisher o Announces h.jobs) (database : IsDatabase o h.queries)
      (storage : IsStorage o h.tracks.client)
      (random : (w : W) → RandOutcome o 16 w (pkg.rand_read 16 w)) where
    Labelled-delete : (key : Bytes) (w : W) → Labelled o w → Labelled o (delete h.tracks key w).1
    unfolding delete delete_object
    Labelled-delete key w ls = elim (Result-cases (validate_key key)) [
      | inl (done, e) ↦ rw e (Labelled-deleted _ w ls (storage.delete _ _ w))
      | inr (x, e) ↦ rw e ls
    ]

    step-Labels : (p : Progress) (w : W) → Admitted p → Labelled o w → Labels (step pkg h p w)
    unfolding step
    step-Labels (arrived r) w a ls = Labels-checked r w ls (check_upload h.cfg r) refl
    step-Labels (drawing u) w a ls =
        Labels-drawn u w a ls (new_object_id-ObjectIdOutcome o pkg random w)
    step-Labels (storing u id) w (named, (artist, title, audio)) ls =
        Labels-placed u _ w (artist, title, audio) ls
          (put_original-OriginalOutcome o pkg.urls h.tracks storage id u.filename named audio u.body
            u.content_type w)
    step-Labels (inserting u s) w a ls =
        Labels-saved u s w a ls (create_track-CreateOutcome o h.queries database _ w)
    step-Labels (publishing t key) w a ls = Labels-sent t key w ls (publisher.publish _ _ _ w)
    step-Labels (deleting_row t key) w a ls =
        (tt, Labelled-row_deleted t.id w ls (delete-DeleteRowOutcome o h.queries database t.id w))
    step-Labels (deleting_object x key) w a ls = (tt, Labelled-delete key w ls)
    step-Labels (answered x) w a ls = (tt, ls)

    abbrev AllAdmitted : System W → Type 0
    AllAdmitted s = ((i : ℕ) → Admitted (s.at i)) × Labelled o s.world

    Step-AllAdmitted : {s t : System W} → Step o pkg h s t → AllAdmitted s → AllAdmitted t
    Step-AllAdmitted (request s i x r free) (a, ls) =
        (update-All s.at i (arrived r) (λ j p. Admitted p) tt (λ j n. a j), ls)
    Step-AllAdmitted (call s i new) (a, ls) =
        let (a', ls') = step-Labels (s.at i) s.world (a i) ls in
        (update-All s.at i _ (λ j p. Admitted p) a' (λ j n. a j), ls')

    Reach-AllAdmitted : {s t : System W} → Reach o pkg h s t → AllAdmitted s → AllAdmitted t
    Reach-AllAdmitted start a = a
    Reach-AllAdmitted (later before last) a = Step-AllAdmitted last (Reach-AllAdmitted before a)

    -- Uploads run interleaved from a state where all requests are answered and every row has an
    -- artist and a title of 1 to 255 bytes. Where the services keep their laws and each drawn id
    -- makes a key that no row names and no request under way holds, every row has such an artist and
    -- title after any number of steps.
    pub interleaved-Labelled :
        (s : System W) (idle : (i : ℕ) → (x : Response) × (s.at i ≡ answered x))
        → Labelled o s.world
        → {t : System W} → Reach o pkg h s t
        → Labelled o t.world
    interleaved-Labelled s idle ls reach =
        (Reach-AllAdmitted reach (λ i. let (x, e) = idle i in rw e tt, ls)).1
