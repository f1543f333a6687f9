-- ===== src/Server/Reading.antt =====
-- Requests that change nothing.
use audio_streaming_service.Common.{
  ◌≡◌, sym, false, List, some, codes, bytes_eq, bytes_eq_iff, Bool-cases, ◌⊎◌, inl, inr, In, arith,
}
use audio_streaming_service.Handlers.{Request, Response, Packages}
use audio_streaming_service.Handlers.Download.{DownloadHandler}
use audio_streaming_service.Handlers.Download.Answers.{download-IsAnswer}
use audio_streaming_service.Handlers.Tracks.Answers.{tracks-IsAnswer}
use audio_streaming_service.Handlers.Upload.{UploadHandler}
use audio_streaming_service.Server.{Route, Mux, new_mux, http_handler, with_permissive_cors, health}
use audio_streaming_service.Server.Dispatch.{dispatch_each}
use audio_streaming_service.Server.Routing.{Router, Vars, IsMux, routes-new_mux}
use audio_streaming_service.Server.Serving.{SameRoutes, app_routes, literal-none, by_route}
use audio_streaming_service.Services.{Observed, Untouched, Untouched-refl, IsStorage, IsDatabase}
use audio_streaming_service.Std.Path.{clean}

module _ {W R : Type 0} (o : Observed W) (mux : Mux W R) (router : Router) (laws : IsMux mux router)
    (pkg : Packages W) (uploads : UploadHandler W) (downloads : DownloadHandler W)
    (rs : List (Route W))
    (same : SameRoutes rs (app_routes pkg uploads downloads downloads.queries))
    (storage : IsStorage o downloads.tracks.client)
    (database : IsDatabase o downloads.queries) where
  abbrev IsUploadRequest : Request → Type 0
  IsUploadRequest r = (r.method ≡ codes "POST") × (r.path ≡ codes "/upload")

  abbrev Reads : Request → W → Response × W → Type 0
  Reads r w q = Untouched o w q.1 ⊎ IsUploadRequest r

  upload-path :
      (r : Request) (vars : Vars)
      → router.match (codes "/upload") r.path ≡ some vars
      → r.path ≡ codes "/upload"
  upload-path r vars fits = elim (Bool-cases (bytes_eq (codes "/upload") r.path)) [
    | inl e ↦ sym ((bytes_eq_iff (codes "/upload") r.path).0 e)
    | inr e ↦
        let none_fits =
          literal-none mux router laws pkg uploads downloads downloads.queries (codes "/upload")
            r.path (omega arith) e in
        cc
  ]

  each_route :
      (r : Request) (w : W) (x : Route W)
      → In x (app_routes pkg uploads downloads downloads.queries)
      → (vars : Vars) → router.match x.pattern r.path ≡ some vars
      → r.method ≡ x.method
      → Reads r w (x.serve_http (record r { vars = vars }) w)
  unfolding health
  each_route r w =
      by_route mux router laws pkg uploads downloads downloads.queries
        (λ x.
          (vars : Vars)
          → router.match x.pattern r.path ≡ some vars
          → r.method ≡ x.method
          → Reads r w (x.serve_http (record r { vars = vars }) w))
        (λ vars fits method. inl (Untouched-refl o w))
        (λ vars fits method. inr (method, upload-path r vars fits))
        (λ vars fits method.
          inl (tracks-IsAnswer o pkg downloads.queries database (record r { vars = vars }) w).1)
        (λ vars fits method.
          inl (download-IsAnswer o pkg downloads storage database (record r { vars = vars }) w).1)

  -- Where the router, the database and the object storage keep their laws, a request on a clean path
  -- changes no row, no object and no message, unless it is POST /upload; whatever its method and
  -- its path are, those that no route serves and the preflights included.
  pub http_handler-Untouched :
      (r : Request) (w : W)
      → clean r.path ≡ r.path
      → Untouched o w (http_handler mux (new_mux mux rs) r w).1
        ⊎ ((r.method ≡ codes "POST") × (r.path ≡ codes "/upload"))
  unfolding http_handler with_permissive_cors
  http_handler-Untouched r w c = elim (Bool-cases (bytes_eq r.method (codes "OPTIONS"))) [
    | inl preflight ↦ rw preflight (inl (Untouched-refl o w))
    | inr other ↦ rw other (
        rw (laws.serve (new_mux mux rs) r w c) (
          rw (routes-new_mux mux router laws rs) (
            dispatch_each router (Reads r w) r w (λ status. inl (Untouched-refl o w)) rs
              (λ x vars i. each_route r w x (same.to x i) vars) false)))
  ]
