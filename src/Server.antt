-- ===== src/Server.antt =====
-- core-api/server/server.go and core-api/server/routes: CORS, the routes and the health check.
pub mod Conformance
pub mod Cors
pub mod Described
pub mod Dispatch
pub mod Documented
pub mod Playback
pub mod Reading
pub mod Routing
pub mod Schemas
pub mod Serving
use audio_streaming_service.Common.{
  Result, ok, err, Exec, ℕ, Bool, true, false, List, [], ◌∷◌, ◌++◌, map, Bytes, codes, bytes_eq,
  if◌then◌else◌,
}
use audio_streaming_service.Config.{Config}
use audio_streaming_service.Lifecycle.{Hook}
use audio_streaming_service.Std.Format.{decimal_int}
use audio_streaming_service.Handlers.{Request, Response, HealthResponse, empty, health_body}
use audio_streaming_service.Handlers.Download.{DownloadHandler, download}
use audio_streaming_service.Handlers.Tracks.{tracks}
use audio_streaming_service.Handlers.Upload.{UploadHandler, upload}
use audio_streaming_service.Handlers.{Packages}
use audio_streaming_service.Repository.Queries.{Dbtx}

-- `http.Handler`
abbrev pub Handler : Type 0 → Type 0
Handler W = Request → W → Response × W

abbrev pub cors_headers : List (Bytes × Bytes)
cors_headers =
    (codes "Access-Control-Allow-Origin", codes "*")
    ∷ (codes "Access-Control-Allow-Methods", codes "GET, POST, PUT, PATCH, DELETE, OPTIONS")
    ∷ (codes "Access-Control-Allow-Headers", codes "*")
    ∷ (codes "Access-Control-Expose-Headers", codes "*")
    ∷ []

-- The headers set before stay in the response of the next handler.
abbrev pub add_headers : List (Bytes × Bytes) → Response → Response
add_headers hs x = record x { headers = hs ++ x.headers }

abbrev pub no_content : Response
no_content = record { status = 204; headers = cors_headers; body = empty }

abbrev pub with_cors : {W : Type 0} → Response × W → Response × W
with_cors (x, w) = (add_headers cors_headers x, w)

-- `withPermissiveCORS`
unfoldable pub with_permissive_cors : {W : Type 0} → Handler W → Handler W
with_permissive_cors next r w =
    if bytes_eq r.method (codes "OPTIONS") then (no_content, w) else with_cors (next r w)

-- The interface `Route`
pub record Route (W : Type 0) : Type 0 where
  pub pattern : Bytes
  pub method : Bytes
  pub serve_http : Handler W

-- `NewHealthResponse`
abbrev new_health_response : HealthResponse
new_health_response = record { status = codes "ok" }

-- `HealthHandler`; the encoder writes the status 200 with the first byte.
unfoldable pub health : {W : Type 0} → Handler W
health r w = (
  record {
    status = 200;
    headers = (codes "Content-Type", codes "application/json") ∷ [];
    body = health_body new_health_response;
  },
  w,
)

module _ {W : Type 0} where
  abbrev pub health_route : Route W
  health_route = record { pattern = codes "/health"; method = codes "GET"; serve_http = health }

  abbrev pub upload_route : Packages W → UploadHandler W → Route W
  upload_route pkg h = record {
    pattern = codes "/upload";
    method = codes "POST";
    serve_http = upload pkg h;
  }

  abbrev pub tracks_route : Packages W → Dbtx W → Route W
  tracks_route pkg queries = record {
    pattern = codes "/tracks";
    method = codes "GET";
    serve_http = tracks pkg queries;
  }

  abbrev pub download_route : Packages W → DownloadHandler W → Route W
  download_route pkg h = record {
    pattern = codes "/download/{track_id}";
    method = codes "GET";
    serve_http = download pkg h;
  }

-- gorilla/mux: a router `R`, to which a handler can be added under a pattern and a method
pub record Mux (W R : Type 0) : Type 0 where
  pub new_router : R
  pub handle : R → Bytes → Bytes → Handler W → R
  pub serve_http : R → Handler W

module _ {W R : Type 0} (mux : Mux W R) where
  unfoldable pub register_all : R → List (Route W) → R
  register_all r [] = r
  register_all r (route ∷ routes) =
      register_all (mux.handle r route.pattern route.method route.serve_http) routes

  -- `NewMux`
  unfoldable pub new_mux : List (Route W) → R
  unfolding register_all
  new_mux = register_all mux.new_router

  -- The handler of the server that `NewHTTPServer` makes
  unfoldable pub http_handler : R → Handler W
  unfolding with_permissive_cors
  http_handler router = with_permissive_cors (mux.serve_http router)

-- `http.Server`
pub record HttpServer (W : Type 0) : Type 0 where
  pub addr : Bytes
  pub handler : Handler W
  pub read_header_timeout : ℕ
  pub read_timeout : ℕ
  pub write_timeout : ℕ
  pub idle_timeout : ℕ

-- Packages net and net/http: a listener `L` on an address, serving it in a goroutine, and stopping
pub record NetPackage (W L : Type 0) : Type 0 where
  pub listen : Bytes → Exec W L
  pub serve : HttpServer W → L → W → W
  pub shutdown : HttpServer W → Exec W (Unit {0})

module _ {W L R : Type 0} (net : NetPackage W L) (mux : Mux W R) where
  abbrev pub serve_on : HttpServer W → Result L × W → Result (Unit {0}) × W
  serve_on srv (ok ln, w) = (ok tt, net.serve srv ln w)
  serve_on srv (err e, w) = (err e, w)

  abbrev pub server_hook : HttpServer W → Hook W
  server_hook srv = record {
    on_start = λ w. serve_on srv (net.listen srv.addr w);
    on_stop = net.shutdown srv;
  }

  abbrev pub server_of : Config → R → HttpServer W
  unfolding http_handler decimal_int
  server_of cfg router = record {
    addr = b':' ∷ decimal_int cfg.port;
    handler = http_handler mux router;
    read_header_timeout = cfg.http_read_header_timeout;
    read_timeout = cfg.http_read_timeout;
    write_timeout = cfg.http_write_timeout;
    idle_timeout = cfg.http_idle_timeout;
  }

  -- `NewHTTPServer`, with the hook that it appends
  unfoldable pub new_http_server : Config → R → HttpServer W × Hook W
  unfolding server_of
  new_http_server cfg router = (server_of cfg router, server_hook (server_of cfg router))
