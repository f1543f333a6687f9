-- ===== src/Handlers/Upload/Steps.antt =====
-- core-api/server/handlers/upload.go as a machine that makes one call in each step: the requests
-- that the server handles at the same time can be interleaved between any two of its calls.
use audio_streaming_service.Common.{
  ℕ, zero, suc, ◌+◌, ◌≡◌, refl, ap, ◌∙◌, arith, Bytes, codes, Result, ok, err,
}
use audio_streaming_service.Handlers.{Request, Response, Packages, internal_error}
use audio_streaming_service.Handlers.Upload.{
  UploadHandler, Upload, Check, reply, pass, check_upload, new_object_id, new_track_params, created,
  after_check, after_object_id, after_put, after_create, after_publish, upload,
}
use audio_streaming_service.Repository.{Track}
use audio_streaming_service.Repository.Queries.{create_track, delete_track_by_id}
use audio_streaming_service.TrackStorage.{StoredObject, put_original, delete}

-- How far a request has come: the call that is next, with what it needs
pub data Progress : Type 0 where
  arrived : Request → Progress
  drawing : Upload → Progress
  storing : Upload → Bytes → Progress
  inserting : Upload → StoredObject → Progress
  publishing : Track → Bytes → Progress
  deleting_row : Track → Bytes → Progress
  deleting_object : Response → Bytes → Progress
  answered : Response → Progress

module _ {W : Type 0} (pkg : Packages W) (h : UploadHandler W) where
  abbrev pub checked : Check Upload → W → Progress × W
  checked (reply x) w = (answered x, w)
  checked (pass u) w = (drawing u, w)

  abbrev pub drawn : Upload → Result Bytes × W → Progress × W
  drawn u (ok id, w) = (storing u id, w)
  drawn u (err e, w) = (answered (internal_error (codes "failed to generate object id")), w)

  abbrev pub placed : Upload → Result StoredObject × W → Progress × W
  placed u (ok s, w) = (inserting u s, w)
  placed u (err e, w) = (answered (internal_error (codes "failed to store uploaded file")), w)

  abbrev pub saved : Bytes → Result Track × W → Progress × W
  saved key (ok t, w) = (publishing t key, w)
  saved key (err e, w) =
      (deleting_object (internal_error (codes "failed to create track metadata")) key, w)

  abbrev pub sent : Track → Bytes → Result (Unit {0}) × W → Progress × W
  sent t key (ok tt, w) = (answered (created pkg h t), w)
  sent t key (err e, w) = (deleting_row t key, w)

  unfoldable pub step : Progress → W → Progress × W
  step (arrived r) w = checked (check_upload h.cfg r) w
  step (drawing u) w = drawn u (new_object_id pkg w)
  step (storing u id) w =
      placed u (put_original pkg.urls h.tracks id u.filename u.body u.content_type w)
  step (inserting u s) w = saved s.key (create_track h.queries (new_track_params u s) w)
  step (publishing t key) w = sent t key (
      h.jobs.publish_created (pkg.uuid_string t.id) t.original_object_key
        h.cfg.transcode_job_priority w)
  step (deleting_row t key) w = (
    deleting_object (internal_error (codes "failed to enqueue transcode job")) key,
    (delete_track_by_id h.queries t.id w).1,
  )
  step (deleting_object x key) w = (answered x, (delete h.tracks key w).1)
  step (answered x) w = (answered x, w)

  unfoldable pub run : ℕ → Progress × W → Progress × W
  unfolding step
  run zero q = q
  run (suc n) (p, w) = run n (step p w)

  -- A request that has been answered, in a world
  abbrev pub finished : Response × W → Progress × W
  finished (x, w) = (answered x, w)

  run-answered : (n : ℕ) (x : Response) (w : W) → run n (answered x, w) ≡ (answered x, w)
  unfolding run
  run-answered zero x w = refl
  run-answered (suc n) x w = run-answered n x w

  run-sent :
      (t : Track) (key : Bytes) (q : Result (Unit {0}) × W)
      → run 2 (sent t key q) ≡ finished (after_publish pkg h t key q)
  unfolding run after_publish
  run-sent t key (ok tt, w) = refl
  run-sent t key (err e, w) = refl

  run-saved :
      (key : Bytes) (q : Result Track × W)
      → run 3 (saved key q) ≡ finished (after_create pkg h key q)
  unfolding run after_create
  run-saved key (ok t, w) = run-sent t key _
  run-saved key (err e, w) = refl

  run-placed :
      (u : Upload) (q : Result StoredObject × W)
      → run 4 (placed u q) ≡ finished (after_put pkg h u q)
  unfolding run after_put
  run-placed u (ok s, w) = run-saved s.key _
  run-placed u (err e, w) = refl

  run-drawn :
      (u : Upload) (q : Result Bytes × W) → run 5 (drawn u q) ≡ finished (after_object_id pkg h u q)
  unfolding run after_object_id
  run-drawn u (ok id, w) = run-placed u _
  run-drawn u (err e, w) = refl

  run-checked : (c : Check Upload) (w : W) → run 6 (checked c w) ≡ finished (after_check pkg h c w)
  unfolding run after_check
  run-checked (reply x) w = refl
  run-checked (pass u) w = run-drawn u _

  run-add : (m n : ℕ) (p : Progress) (w : W) → run (m + n) (p, w) ≡ run n (run m (p, w))
  unfolding run
  run-add zero n p w = let e : 0 + n ≡ n = omega arith in rw e refl
  run-add (suc m) n p w =
      let e : suc m + n ≡ suc (m + n) = omega arith in rw e (run-add m n (step p w).0 (step p w).1)

  run-arrived : (r : Request) (w : W) → run 7 (arrived r, w) ≡ finished (upload pkg h r w)
  unfolding run upload
  run-arrived r w = run-checked (check_upload h.cfg r) w

  -- Seven steps without interruption, or more, bring every request to an answer: the answer and the
  -- world of `ServeHTTP`.
  pub run-upload :
      (n : ℕ) (r : Request) (w : W) → run (7 + n) (arrived r, w) ≡ finished (upload pkg h r w)
  run-upload n r w =
      run-add 7 n (arrived r) w
      ∙ ap (run n) (run-arrived r w)
      ∙ run-answered n (upload pkg h r w).0 (upload pkg h r w).1
