-- ===== src/Handlers/Upload/Interleaved/Announced.antt =====
-- The jobs in the topic, while uploads run at the same time, name tracks that are there.
use mathlib.Core.Option.{some-injective}
use audio_streaming_service.Common.{
  ℕ, ◌≡◌, ◌≢◌, refl, sym, ◌∙◌, [], ◌∷◌, none, some, Bytes, ok, All, All-map, All-append, In, All-In,
  ℤ,
}
use audio_streaming_service.Events.{Message}
use audio_streaming_service.Handlers.{Response, Packages}
use audio_streaming_service.Handlers.Upload.{UploadHandler}
use audio_streaming_service.Handlers.Upload.Interleaved.{
  holder, update, IsNewFor, IsUnused, HasObject, Backed, System, Step, Reach, request, call, start,
  later,
}
use audio_streaming_service.Handlers.Upload.Interleaved.Moves.{Moved}
use audio_streaming_service.Handlers.Upload.Interleaved.Owned.{Owns}
use audio_streaming_service.Handlers.Upload.Interleaved.Promises.{Apart}
use audio_streaming_service.Handlers.Upload.Interleaved.Safety.{
  IsSound, Step-IsSound, idle-IsSound, step-Moved,
}
use audio_streaming_service.Handlers.Upload.Interleaved.Tellings.{
  Told, Telling, silent, told, step-Told,
}
use audio_streaming_service.Handlers.Upload.Interleaved.Updates.{update-All}
use audio_streaming_service.Handlers.Upload.Steps.{Progress, arrived, publishing, answered, step}
use audio_streaming_service.Repository.{Track, Uuid}
use audio_streaming_service.Repository.Queries.{delete_track_by_id}
use audio_streaming_service.Services.{Observed, RandOutcome, IsStorage, IsDatabase, IsPublisher}

module _ {W : Type 0} (o : Observed W) (pkg : Packages W) (h : UploadHandler W)
    (Announces : Bytes → Bytes → ℤ → Message → Type 0) where
  -- The message announces a row of the table, which has its object.
  abbrev pub IsServed : W → Message → Type 0
  IsServed w m =
      (t : Track) × In t (o.tracks w)
      × HasObject o h.tracks.bucket t.original_object_key w
      × (priority : ℤ) × Announces (pkg.uuid_string t.id) t.original_object_key priority m

  -- A row that the message announces, whose key no request holds
  abbrev IsSettled : System W → Message → Type 0
  IsSettled s m =
      (t : Track) × In t (o.tracks s.world)
      × ((i : ℕ) → holder (s.at i) ≢ some t.original_object_key)
      × (priority : ℤ) × Announces (pkg.uuid_string t.id) t.original_object_key priority m

  abbrev after : System W → ℕ → Progress × W → System W
  after s i x = record { at = update s.at i x.0; world = x.1 }

  module _ (s : System W) (i : ℕ) (x : Progress × W) (moved : Moved o pkg h (s.at i) s.world x)
      (tells : Told o pkg h Announces (s.at i) s.world x)
      (unused : IsUnused o pkg h (s.at i) s.world)
      (apart : (j : ℕ) → i ≢ j → Apart (s.at i) (s.at j)) where
    -- No request comes to hold the key of a row that none held.
    IsSettled-after : (m : Message) → IsSettled s m → IsSettled (after s i x) m
    IsSettled-after m (t, stands, alone, priority, a) =
        let q = publishing t t.original_object_key in
        let new : IsNewFor o pkg h (s.at i) s.world q = λ u id e drawn e'.
          All-In _ (o.tracks s.world) stands (unused u id e drawn) (some-injective _ _ e') in
        let free : holder x.0 ≢ some t.original_object_key = λ e.
          moved.apart q new (λ k e' e''. alone i (e' ∙ sym e'')) t.original_object_key e refl in
        (
          t,
          tells.row t (alone i) stands,
          update-All s.at i x.0 (λ j p. holder p ≢ some t.original_object_key) free
              (λ j n. alone j),
          priority,
          a,
        )

    All-IsSettled-after :
        Telling o pkg h Announces (s.at i) s.world x
        → All (IsSettled s) (o.jobs s.world)
        → All (IsSettled (after s i x)) (o.jobs x.1)
    All-IsSettled-after (silent same) all = rw same (All-map IsSettled-after (o.jobs s.world) all)
    All-IsSettled-after (told {p' = p'} t m priority has gone stands a more) all = rw more (
        All-append (IsSettled (after s i x)) (o.jobs s.world) (m ∷ [])
          (All-map IsSettled-after (o.jobs s.world) all)
          (
            (
              t,
              stands,
              update-All s.at i p' (λ j p. holder p ≢ some t.original_object_key)
                  (λ e. absurd (
                    let e' : none ≡ some t.original_object_key = sym gone ∙ e in
                    let e'' : ⊥ = cc in e''))
                  (λ j n. apart j n _ has),
              priority,
              a,
            ),
            tt,
          ))

  module _ (publisher : IsPublisher o Announces h.jobs) (database : IsDatabase o h.queries)
      (storage : IsStorage o h.tracks.client)
      (random : (w : W) → RandOutcome o 16 w (pkg.rand_read 16 w))
      (works : (id : Uuid) (w : W) → (delete_track_by_id h.queries id w).0 ≡ ok tt) where
    abbrev Sound : System W → Type 0
    Sound s = IsSound o pkg h publisher database storage random works s

    record IsTrue (s : System W) : Type 0 where
      pub sound : Sound s
      pub owns : (i : ℕ) → Owns o (s.at i) s.world
      pub settled : All (IsSettled s) (o.jobs s.world)

    Step-IsTrue : {s t : System W} → Step o pkg h s t → IsTrue s → IsTrue t
    Step-IsTrue (request s i x r free) true_s = record {
      sound =
          Step-IsSound o pkg h publisher database storage random works (request s i x r free)
            true_s.sound;
      owns = update-All s.at i (arrived r) (λ j p. Owns o p s.world) tt (λ j n. true_s.owns j);
      settled =
          All-map
            (λ m (t, stands, alone, priority, a). (
              t,
              stands,
              update-All s.at i (arrived r) (λ j p. holder p ≢ some t.original_object_key) (λ e. cc)
                  (λ j n. alone j),
              priority,
              a,
            ))
            (o.jobs s.world) true_s.settled;
    }
    Step-IsTrue (call s i (unused, new)) true_s =
        let w = s.world in
        let x = step pkg h (s.at i) w in
        let moved =
          step-Moved o pkg h publisher database storage random works (s.at i) w
            (true_s.sound.fine i) true_s.sound.backed unused in
        let told_s =
          step-Told o pkg h Announces publisher database storage random (s.at i) w
            (true_s.sound.fine i) (true_s.owns i) in
        record {
          sound =
              Step-IsSound o pkg h publisher database storage random works (call s i (unused, new))
                true_s.sound;
          owns =
              update-All s.at i x.0 (λ j p. Owns o p x.1) told_s.owns
                (λ j n. told_s.others (s.at j) (true_s.sound.apart i j n) (true_s.owns j));
          settled =
              All-IsSettled-after s i x moved told_s unused (true_s.sound.apart i) told_s.telling
                true_s.settled;
        }

    Reach-IsTrue : {s t : System W} → Reach o pkg h s t → IsTrue s → IsTrue t
    Reach-IsTrue start facts = facts
    Reach-IsTrue (later before last) facts = Step-IsTrue last (Reach-IsTrue before facts)

    idle-IsTrue :
        (s : System W)
        → ((i : ℕ) → (x : Response) × (s.at i ≡ answered x))
        → Backed o h.tracks.bucket s.world
        → All (IsServed s.world) (o.jobs s.world)
        → IsTrue s
    idle-IsTrue s idle backed served = record {
      sound = idle-IsSound o pkg h publisher database storage random works s idle backed;
      owns = λ i. let (x, e) = idle i in rw e tt;
      settled =
          All-map
            (λ m (t, stands, has, priority, a).
              (t, stands, λ i. let (x, e) = idle i in rw e (λ e'. cc), priority, a))
            (o.jobs s.world) served;
    }

    -- Uploads run interleaved, one call at a time, from a state where all requests are answered, every
    -- row has its object and every message in the topic announces a row of the table that has its
    -- object. If the services keep their laws, the deletions of rows report no error, and each drawn
    -- id makes a key that no row names and no request under way holds, then every message in the topic
    -- announces such a row after any number of steps, whatever fails and is compensated.
    pub interleaved-IsServed :
        (s : System W) (idle : (i : ℕ) → (x : Response) × (s.at i ≡ answered x))
        → Backed o h.tracks.bucket s.world
        → All (IsServed s.world) (o.jobs s.world)
        → {t : System W} → Reach o pkg h s t
        → All (IsServed t.world) (o.jobs t.world)
    interleaved-IsServed s idle backed served {t} reach =
        let facts = Reach-IsTrue reach (idle-IsTrue s idle backed served) in
        All-map
          (λ m (r, stands, alone, priority, a).
            (r, stands, All-In _ (o.tracks t.world) stands facts.sound.backed, priority, a))
          (o.jobs t.world) facts.settled
