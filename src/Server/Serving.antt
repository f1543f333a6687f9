-- ===== src/Server/Serving.antt =====
-- The service as a whole: which handler a request reaches through CORS and the router.
use audio_streaming_service.Common.{
  ◌≡◌, ◌≢◌, refl, sym, ap, ◌∙◌, false, List, [], ◌∷◌, ◌++◌, none, some, Bytes, codes, bytes_eq,
  bytes_eq_iff, All, ◌⊎◌, inl, inr, arith, Bool-cases, In, here, there,
}
use audio_streaming_service.Handlers.{Request, Response, Packages}
use audio_streaming_service.Handlers.Download.{DownloadHandler, download}
use audio_streaming_service.Handlers.Tracks.{tracks}
use audio_streaming_service.Handlers.Upload.{UploadHandler, upload}
use audio_streaming_service.Repository.Queries.{Dbtx}
use audio_streaming_service.Server.{
  Route, Mux, new_mux, http_handler, with_permissive_cors, with_cors, health, health_route,
  upload_route, tracks_route, download_route,
}
use audio_streaming_service.Server.Routing.{Vars, dispatch, Router, IsMux, routes-new_mux}
use audio_streaming_service.Server.Dispatch.{dispatch_unique, dispatch-none}
use audio_streaming_service.Std.Path.{clean, join}
use audio_streaming_service.Std.Path.Elements.{IsElement}
use audio_streaming_service.Std.Path.Clean.{clean_rooted, elements-join}

-- The same routes, in any order
pub record SameRoutes {W : Type 0} (xs ys : List (Route W)) : Type 0 where
  pub to : (x : Route W) → In x xs → In x ys
  pub from : (x : Route W) → In x ys → In x xs

-- The four routes that `main` provides
abbrev pub app_routes :
    {W : Type 0} → Packages W → UploadHandler W → DownloadHandler W → Dbtx W → List (Route W)
app_routes pkg uploads downloads queries =
    health_route
    ∷ upload_route pkg uploads
    ∷ tracks_route pkg queries
    ∷ download_route pkg downloads
    ∷ []

module _ {W R : Type 0} (mux : Mux W R) (router : Router) (laws : IsMux mux router)
    (pkg : Packages W) (uploads : UploadHandler W) (downloads : DownloadHandler W)
    (queries : Dbtx W) where
  pub by_route :
      (P : Route W → Type 0)
      → P health_route
      → P (upload_route pkg uploads)
      → P (tracks_route pkg queries)
      → P (download_route pkg downloads)
      → (y : Route W) → In y (app_routes pkg uploads downloads queries)
      → P y
  by_route P h u t d y here = h
  by_route P h u t d y (there here) = u
  by_route P h u t d y (there (there here)) = t
  by_route P h u t d y (there (there (there here))) = d
  by_route P h u t d y (there (there (there (there i)))) = elim i [ ]

  pub literal-none :
      (p path : Bytes)
      → All (λ c. (c ≢ b'{') × (c ≢ b'}')) p
      → bytes_eq p path ≡ false
      → router.match p path ≡ none
  literal-none p path plain e = rw (laws.literal p path plain) (rw e refl)

  literal-some : (p : Bytes) → All (λ c. (c ≢ b'{') × (c ≢ b'}')) p → router.match p p ≡ some []
  literal-some p plain = rw (laws.literal p p plain) (rw ((bytes_eq_iff p p).1 refl) refl)

  -- Which handler a request is meant for
  pub data IsMeant (r : Request) (w : W) : Response × W → Type 0 where
    health_check :
        r.method ≡ codes "GET"
        → r.path ≡ codes "/health"
        → IsMeant r w (health (record r { vars = [] }) w)
    an_upload :
        r.method ≡ codes "POST"
        → r.path ≡ codes "/upload"
        → IsMeant r w (upload pkg uploads (record r { vars = [] }) w)
    a_list :
        r.method ≡ codes "GET"
        → r.path ≡ codes "/tracks"
        → IsMeant r w (tracks pkg queries (record r { vars = [] }) w)
    a_download :
        (id : Bytes)
        → IsElement id
        → r.method ≡ codes "GET"
        → r.path ≡ codes "/download/" ++ id
        → IsMeant r w (download pkg downloads (record r { vars = (codes "track_id", id) ∷ [] }) w)
    no_route :
        r.method ≢ codes "OPTIONS"
        → clean r.path ≡ r.path
        → All (λ p. r.path ≢ p) (codes "/health" ∷ codes "/upload" ∷ codes "/tracks" ∷ [])
        → ((id : Bytes) → r.path ≢ codes "/download/" ++ id)
        → IsMeant r w (router.plain_answer 404, w)

  -- The handler of the server, with the routes in some order
  module _ (rs : List (Route W))
      (same : SameRoutes rs (app_routes pkg uploads downloads queries)) where
    served :
        (r : Request) (w : W)
        → r.method ≢ codes "OPTIONS"
        → clean r.path ≡ r.path
        → http_handler mux (new_mux mux rs) r w ≡ with_cors (dispatch router false rs r w)
    unfolding http_handler with_permissive_cors
    served r w n c = elim (Bool-cases (bytes_eq r.method (codes "OPTIONS"))) [
      | inl e ↦ absurd (n ((bytes_eq_iff r.method (codes "OPTIONS")).0 e))
      | inr e ↦ rw e (
          ap with_cors (
            laws.serve (new_mux mux rs) r w c
            ∙ ap (λ l. dispatch router false l r w) (routes-new_mux mux router laws rs)))
    ]

    reached :
        (x : Route W) (vars : Vars) (r : Request) (w : W)
        → In x (app_routes pkg uploads downloads queries)
        → r.method ≡ x.method
        → x.method ≢ codes "OPTIONS"
        → clean r.path ≡ r.path
        → router.match x.pattern r.path ≡ some vars
        → ((y : Route W)
            → In y (app_routes pkg uploads downloads queries)
            → (y ≡ x) ⊎ (router.match y.pattern r.path ≡ none))
        → http_handler mux (new_mux mux rs) r w
          ≡ with_cors (x.serve_http (record r { vars = vars }) w)
    reached x vars r w i method n c fits others =
        served r w (λ e. n (sym method ∙ e)) c
        ∙ ap with_cors (
            dispatch_unique router x vars r w fits method (same.from x i)
              (λ y j. others y (same.to y j)) false)

    serves_health :
        (r : Request) (w : W)
        → r.method ≡ codes "GET"
        → r.path ≡ codes "/health"
        → http_handler mux (new_mux mux rs) r w ≡ with_cors (health (record r { vars = [] }) w)
    unfolding bytes_eq clean
    serves_health r w method path =
        reached health_route [] r w here method (cc) (rw path refl)
          (rw path (literal-some (codes "/health") (omega arith)))
          (by_route (λ y. (y ≡ health_route) ⊎ (router.match y.pattern r.path ≡ none)) (inl refl)
            (inr (rw path (literal-none _ _ (omega arith) refl)))
            (inr (rw path (literal-none _ _ (omega arith) refl)))
            (inr (rw path (laws.download_only _ (λ id e. cc)))))

    serves_upload :
        (r : Request) (w : W)
        → r.method ≡ codes "POST"
        → r.path ≡ codes "/upload"
        → http_handler mux (new_mux mux rs) r w
          ≡ with_cors (upload pkg uploads (record r { vars = [] }) w)
    unfolding bytes_eq clean
    serves_upload r w method path =
        reached (upload_route pkg uploads) [] r w (there here) method (cc) (rw path refl)
          (rw path (literal-some (codes "/upload") (omega arith)))
          (by_route (λ y. (y ≡ upload_route pkg uploads) ⊎ (router.match y.pattern r.path ≡ none))
            (inr (rw path (literal-none _ _ (omega arith) refl))) (inl refl)
            (inr (rw path (literal-none _ _ (omega arith) refl)))
            (inr (rw path (laws.download_only _ (λ id e. cc)))))

    serves_tracks :
        (r : Request) (w : W)
        → r.method ≡ codes "GET"
        → r.path ≡ codes "/tracks"
        → http_handler mux (new_mux mux rs) r w
          ≡ with_cors (tracks pkg queries (record r { vars = [] }) w)
    unfolding bytes_eq clean
    serves_tracks r w method path =
        reached (tracks_route pkg queries) [] r w (there (there here)) method (cc) (rw path refl)
          (rw path (literal-some (codes "/tracks") (omega arith)))
          (by_route (λ y. (y ≡ tracks_route pkg queries) ⊎ (router.match y.pattern r.path ≡ none))
            (inr (rw path (literal-none _ _ (omega arith) refl)))
            (inr (rw path (literal-none _ _ (omega arith) refl))) (inl refl)
            (inr (rw path (laws.download_only _ (λ id e. cc)))))

    clean_of_download :
        (id : Bytes) → IsElement id → clean (codes "/download/" ++ id) ≡ codes "/download/" ++ id
    unfolding join
    clean_of_download id e =
        clean_rooted (codes "download/" ++ id)
        ∙ ap (λ ps. b'/' ∷ join b'/' ps)
            (elements-join (codes "download" ∷ id ∷ []) (((cc, cc, cc), omega arith), (e, tt)))

    serves_download :
        (r : Request) (w : W) (id : Bytes)
        → IsElement id
        → r.method ≡ codes "GET"
        → r.path ≡ codes "/download/" ++ id
        → http_handler mux (new_mux mux rs) r w
          ≡ with_cors (download pkg downloads (record r { vars = (codes "track_id", id) ∷ [] }) w)
    unfolding bytes_eq
    serves_download r w id e method path =
        reached (download_route pkg downloads) ((codes "track_id", id) ∷ []) r w
          (there (there (there here))) method (cc) (rw path (clean_of_download id e))
          (rw path (laws.download id e.0.0 e.1))
          (by_route
            (λ y. (y ≡ download_route pkg downloads) ⊎ (router.match y.pattern r.path ≡ none))
            (inr (rw path (literal-none _ _ (omega arith) refl)))
            (inr (rw path (literal-none _ _ (omega arith) refl)))
            (inr (rw path (literal-none _ _ (omega arith) refl))) (inl refl))

    serves_no_route :
        (r : Request) (w : W)
        → r.method ≢ codes "OPTIONS"
        → clean r.path ≡ r.path
        → All (λ p. r.path ≢ p) (codes "/health" ∷ codes "/upload" ∷ codes "/tracks" ∷ [])
        → ((id : Bytes) → r.path ≢ codes "/download/" ++ id)
        → http_handler mux (new_mux mux rs) r w ≡ with_cors (router.plain_answer 404, w)
    serves_no_route r w n c (h, (u, (t, _))) d =
        served r w n c
        ∙ ap with_cors (
            dispatch-none router r w rs (λ y j.
              by_route (λ z. router.match z.pattern r.path ≡ none)
                (literal-none _ _ (omega arith) (apart h))
                (literal-none _ _ (omega arith) (apart u))
                (literal-none _ _ (omega arith) (apart t)) (laws.download_only r.path d) y
                (same.to y j)))
      where
        apart : {p : Bytes} → r.path ≢ p → bytes_eq p r.path ≡ false
        apart {p} k = elim (Bool-cases (bytes_eq p r.path)) [
          | inl e ↦ absurd (k (sym ((bytes_eq_iff p r.path).0 e)))
          | inr e ↦ e
        ]

    -- With a router that keeps its laws, and the four routes registered in any order, the server
    -- answers with the health check on GET /health, with the upload handler on POST /upload, with
    -- the list on GET /tracks, and with the download handler, given the id, on GET /download/{id}
    -- where the id is one element of a clean path; on a clean path of no route the router's own
    -- answer to that, which is 404, comes back; each time behind the CORS headers.
    pub http_handler-new_mux :
        (r : Request) (w : W) {q : Response × W}
        → IsMeant r w q
        → http_handler mux (new_mux mux rs) r w ≡ with_cors q
    http_handler-new_mux r w (IsMeant.health_check method path) = serves_health r w method path
    http_handler-new_mux r w (IsMeant.an_upload method path) = serves_upload r w method path
    http_handler-new_mux r w (IsMeant.a_list method path) = serves_tracks r w method path
    http_handler-new_mux r w (IsMeant.a_download id e method path) =
        serves_download r w id e method path
    http_handler-new_mux r w (IsMeant.no_route n c apart d) = serves_no_route r w n c apart d
