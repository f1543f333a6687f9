-- ===== src/Server/Conformance.antt =====
-- The answers of the handlers and of the server against the description of the API.
use audio_streaming_service.Common.{
  ◌≡◌, refl, ap, List, [], ◌∷◌, map, length, Option, none, some, Bytes, bytes_eq, Bool-cases,
  no_rows, inl, inr, Error, Result, ok, err, ltb, ◌||◌,
}
use audio_streaming_service.Config.{Config}
use audio_streaming_service.Handlers.{FilePart, Form, Request, Response, Packages}
use audio_streaming_service.Handlers.Download.{
  DownloadHandler, after_presign, after_load, after_scan, download, load_failure,
}
use audio_streaming_service.Handlers.Tracks.{after_list, after_parse, tracks, list_item}
use audio_streaming_service.Handlers.Upload.{
  UploadHandler, Upload, Check, reply, pass, check_content, check_file, check_texts, check_form,
  check_upload, after_publish, after_create, after_put, after_object_id, after_check, upload,
  new_object_id, is_supported_audio, parse_multipart_form,
}
use audio_streaming_service.Repository.{Track, Uuid, TrackStatus}
use audio_streaming_service.Repository.Queries.{Dbtx}
use audio_streaming_service.Handlers.Download.Answers.{track_id_raw}
use audio_streaming_service.Server.{
  Mux, Route, new_mux, http_handler, with_cors, add_headers, cors_headers, health,
}
use audio_streaming_service.Server.Documented.{
  bad_request, payload_too_large, unsupported_media_type, internal_server_error, IsProblem,
  IsUploadAnswer, IsListAnswer, IsDownloadAnswer, Operation, get_health, post_upload, get_tracks,
  get_download, IsDocumented,
}
use audio_streaming_service.Server.Routing.{Router, IsMux}
use audio_streaming_service.Server.Serving.{SameRoutes, app_routes, IsMeant, http_handler-new_mux}
use audio_streaming_service.TrackStorage.{StoredObject}

-- What the checks of an upload reply, if they do
abbrev Replies : Check Upload → Type 0
Replies (reply x) =
    IsProblem
      (bad_request ∷ payload_too_large ∷ unsupported_media_type ∷ internal_server_error ∷ []) x
Replies (pass u) = Unit

Replies-check_content :
    (artist title : Bytes) (file : FilePart) (r : Result Bytes)
    → Replies (check_content artist title file r)
unfolding check_content
Replies-check_content artist title file (ok body) = tt
Replies-check_content artist title file (err e) = inl (_, refl)

Replies-check_file :
    (artist title : Bytes) (file : Option FilePart) → Replies (check_file artist title file)
unfolding check_file
Replies-check_file artist title none = inl (_, refl)
Replies-check_file artist title (some file) = elim (Bool-cases (is_supported_audio file.filename)) [
  | inl e ↦ rw e (Replies-check_content artist title file file.content)
  | inr e ↦ rw e (inr (inr (inl (_, refl))))
]

Replies-check_texts :
    (artist title : Bytes) (file : Option FilePart) → Replies (check_texts artist title file)
unfolding check_texts
Replies-check_texts artist title file =
    elim (Bool-cases (bytes_eq artist [] || bytes_eq title [])) [
      | inl e ↦ rw e (inl (_, refl))
      | inr e ↦ rw e (elim (Bool-cases (ltb 255 (length artist) || ltb 255 (length title))) [
        | inl e' ↦ rw e' (inl (_, refl))
        | inr e' ↦ rw e' (Replies-check_file artist title file)
      ])
    ]

Replies-check_form : (r : Request) (form : Option Form) → Replies (check_form r form)
unfolding check_form
Replies-check_form r none = inr (inl (_, refl))
Replies-check_form r (some form) = Replies-check_texts _ _ _

Replies-check_upload : (cfg : Config) (r : Request) → Replies (check_upload cfg r)
unfolding check_upload
Replies-check_upload cfg r = Replies-check_form r (parse_multipart_form cfg.upload_max_bytes r)

module _ {W : Type 0} (pkg : Packages W) (h : UploadHandler W) where
  IsUploadAnswer-after_publish :
      (t : Track) (key : Bytes) (q : Result (Unit {0}) × W)
      → IsUploadAnswer (after_publish pkg h t key q).0
  unfolding after_publish
  IsUploadAnswer-after_publish t key (ok tt, w) = inl (_, refl)
  IsUploadAnswer-after_publish t key (err e, w) = inr (inr (inr (inr (inl (_, refl)))))

  IsUploadAnswer-after_create :
      (key : Bytes) (q : Result Track × W) → IsUploadAnswer (after_create pkg h key q).0
  unfolding after_create
  IsUploadAnswer-after_create key (ok t, w) = IsUploadAnswer-after_publish t key _
  IsUploadAnswer-after_create key (err e, w) = inr (inr (inr (inr (inl (_, refl)))))

  IsUploadAnswer-after_put :
      (u : Upload) (q : Result StoredObject × W) → IsUploadAnswer (after_put pkg h u q).0
  unfolding after_put
  IsUploadAnswer-after_put u (ok s, w) = IsUploadAnswer-after_create s.key _
  IsUploadAnswer-after_put u (err e, w) = inr (inr (inr (inr (inl (_, refl)))))

  IsUploadAnswer-after_object_id :
      (u : Upload) (q : Result Bytes × W) → IsUploadAnswer (after_object_id pkg h u q).0
  unfolding after_object_id
  IsUploadAnswer-after_object_id u (ok id, w) = IsUploadAnswer-after_put u _
  IsUploadAnswer-after_object_id u (err e, w) = inr (inr (inr (inr (inl (_, refl)))))

  IsUploadAnswer-after_check :
      (c : Check Upload) (w : W) → Replies c → IsUploadAnswer (after_check pkg h c w).0
  unfolding after_check
  IsUploadAnswer-after_check (reply x) w problem = inr problem
  IsUploadAnswer-after_check (pass u) w _ = IsUploadAnswer-after_object_id u (new_object_id pkg w)

  pub upload-IsUploadAnswer : (r : Request) (w : W) → IsUploadAnswer (upload pkg h r w).0
  unfolding upload
  upload-IsUploadAnswer r w =
      IsUploadAnswer-after_check (check_upload h.cfg r) w (Replies-check_upload h.cfg r)

module _ {W : Type 0} (pkg : Packages W) (queries : Dbtx W) where
  IsListAnswer-after_list :
      (q : Result (List Track) × W) → IsListAnswer (after_list pkg queries q).0
  unfolding after_list
  IsListAnswer-after_list (ok ts, w) = inl (map (list_item pkg queries) ts, refl)
  IsListAnswer-after_list (err e, w) = inr (inr (inl (_, refl)))

  IsListAnswer-after_parse :
      (s : Result TrackStatus) (w : W) → IsListAnswer (after_parse pkg queries s w).0
  unfolding after_parse
  IsListAnswer-after_parse (ok status) w = IsListAnswer-after_list _
  IsListAnswer-after_parse (err e) w = inr (inl (_, refl))

  pub tracks-IsListAnswer : (r : Request) (w : W) → IsListAnswer (tracks pkg queries r w).0
  unfolding tracks
  tracks-IsListAnswer r w = IsListAnswer-after_parse _ w

module _ {W : Type 0} (pkg : Packages W) (h : DownloadHandler W) where
  IsDownloadAnswer-load_failure : (e : Error) → IsDownloadAnswer (load_failure e)
  IsDownloadAnswer-load_failure no_rows = inr (inl (_, refl))
  IsDownloadAnswer-load_failure _ = inr (inr (inr (inl (_, refl))))

  IsDownloadAnswer-after_presign :
      (t : Track) (q : Result Bytes × W) → IsDownloadAnswer (after_presign pkg h t q).0
  unfolding after_presign
  IsDownloadAnswer-after_presign t (ok url, w) = inl (_, refl)
  IsDownloadAnswer-after_presign t (err e, w) = inr (inr (inr (inl (_, refl))))

  IsDownloadAnswer-after_load : (q : Result Track × W) → IsDownloadAnswer (after_load pkg h q).0
  unfolding after_load
  IsDownloadAnswer-after_load (ok t, w) = IsDownloadAnswer-after_presign t _
  IsDownloadAnswer-after_load (err e, w) = IsDownloadAnswer-load_failure e

  IsDownloadAnswer-after_scan :
      (s : Result Uuid) (w : W) → IsDownloadAnswer (after_scan pkg h s w).0
  unfolding after_scan
  IsDownloadAnswer-after_scan (ok id) w = IsDownloadAnswer-after_load _
  IsDownloadAnswer-after_scan (err e) w = inr (inr (inl (_, refl)))

  pub download-IsDownloadAnswer : (r : Request) (w : W) → IsDownloadAnswer (download pkg h r w).0
  unfolding download
  download-IsDownloadAnswer r w = elim (Bool-cases (bytes_eq (track_id_raw r) [])) [
    | inl e ↦ rw e (inr (inr (inl (_, refl))))
    | inr e ↦ rw e (IsDownloadAnswer-after_scan (pkg.uuid_scan (track_id_raw r)) w)
  ]

module _ {W R : Type 0} (mux : Mux W R) (router : Router) (laws : IsMux mux router)
    (pkg : Packages W) (uploads : UploadHandler W) (downloads : DownloadHandler W)
    (queries : Dbtx W) (rs : List (Route W))
    (same : SameRoutes rs (app_routes pkg uploads downloads queries)) where
  behind_cors :
      (r : Request) (w : W) (op : Operation r) {q : Response × W}
      → http_handler mux (new_mux mux rs) r w ≡ with_cors q
      → IsDocumented op q.0
      → (x : Response) × IsDocumented op x
        × ((http_handler mux (new_mux mux rs) r w).0 ≡ add_headers cors_headers x)
  behind_cors r w op {q} e d = (q.0, d, ap (λ p. p.0) e)

  -- With a router that keeps its laws and the four routes in any order, and whatever the database,
  -- the object storage, the broker and the random source do, every request for one of the four
  -- operations is answered with a status that the API description lists for the operation and a
  -- JSON body of the schema that goes with that status, an error with the code that goes with it,
  -- behind the CORS headers.
  pub http_handler-IsDocumented :
      (r : Request) (w : W) (op : Operation r)
      → (x : Response) × IsDocumented op x
        × ((http_handler mux (new_mux mux rs) r w).0 ≡ add_headers cors_headers x)
  unfolding health
  http_handler-IsDocumented r w (get_health method path) =
      behind_cors r w (get_health method path)
        (http_handler-new_mux mux router laws pkg uploads downloads queries rs same r w
          (IsMeant.health_check method path))
        refl
  http_handler-IsDocumented r w (post_upload method path) =
      behind_cors r w (post_upload method path)
        (http_handler-new_mux mux router laws pkg uploads downloads queries rs same r w
          (IsMeant.an_upload method path))
        (upload-IsUploadAnswer pkg uploads _ w)
  http_handler-IsDocumented r w (get_tracks method path) =
      behind_cors r w (get_tracks method path)
        (http_handler-new_mux mux router laws pkg uploads downloads queries rs same r w
          (IsMeant.a_list method path))
        (tracks-IsListAnswer pkg queries _ w)
  http_handler-IsDocumented r w (get_download id element method path) =
      behind_cors r w (get_download id element method path)
        (http_handler-new_mux mux router laws pkg uploads downloads queries rs same r w
          (IsMeant.a_download id element method path))
        (download-IsDownloadAnswer pkg downloads _ w)
