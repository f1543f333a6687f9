-- ===== src/Application/Startup.antt =====
-- The application that starts, where no constructor fails.
use audio_streaming_service.Application.{
  Component, config, s3_storage, track_storage, pool, queries, transcode_publisher, health_handler,
  upload_handler, tracks_handler, download_handler, mux_router, http_server, provided,
}
use audio_streaming_service.Application.Build.{
  Value, a_config, an_s3_storage, a_track_storage, a_pool, the_queries, a_publisher, health_value,
  upload_value, tracks_value, download_value, a_router, a_server, component_of, Libraries, Makes,
  Built,
}
use audio_streaming_service.Common.{
  ℕ, ◌≡◌, ◌≢◌, refl, ap, List, [], ◌∷◌, map, length, ok, All, All-map, In, here, there, arith,
}
use audio_streaming_service.Config.{Config}
use audio_streaming_service.Config.Environment.{Environment, new_config}
use audio_streaming_service.Events.{TranscodePublisher, new_transcode_publisher}
use audio_streaming_service.Handlers.Download.{new_download_handler}
use audio_streaming_service.Handlers.Upload.{new_upload_handler}
use audio_streaming_service.Lifecycle.{Hook}
use audio_streaming_service.Repository.Pool.{new_pool}
use audio_streaming_service.Repository.Queries.{Dbtx}
use audio_streaming_service.Server.{
  HttpServer, Route, health_route, upload_route, tracks_route, download_route, new_mux,
  new_http_server,
}
use audio_streaming_service.Storage.{S3Storage, new_s3_storage}

-- Components apart by a number
unfoldable pub rank : Component → ℕ
rank config = 0
rank s3_storage = 1
rank track_storage = 2
rank pool = 3
rank queries = 4
rank transcode_publisher = 5
rank health_handler = 6
rank upload_handler = 7
rank tracks_handler = 8
rank download_handler = 9
rank mux_router = 10
rank http_server = 11

module _ {W L R A : Type 0} (lib : Libraries W L R A) (env : Environment) where
  grow :
      {v : Value W R} {made : List (Value W R)}
      → Built lib env made
      → Makes lib env made v
      → All (λ u. rank (component_of u) ≢ rank (component_of v)) made
      → Built lib env (v ∷ made)
  grow {made = made} before m fresh =
      Built.made_next before m (All-map (λ u n e. n (ap rank e)) made fresh)

  -- A server has been built, and every provided constructor has been called, each once.
  pub record IsStarted (made : List (Value W R)) : Type 0 where
    pub server : HttpServer W
    pub built : Built lib env made
    pub started : In (a_server server) made
    pub called : All (λ c. In c (map component_of made)) provided
    pub once : length made ≡ length provided

  module _ (cfg : Config) (configured : new_config lib.env_pkg env ≡ ok cfg) (store : S3Storage W)
      (w : W) (stored : (new_s3_storage lib.aws cfg w).0 ≡ ok store) (db : Dbtx W) (hook : Hook W)
      (w' : W) (pooled : (new_pool lib.pools cfg w').0 ≡ ok (db, hook)) where
    abbrev jobs : TranscodePublisher W
    jobs = (new_transcode_publisher lib.kafka lib.unix_nano lib.marshal cfg).0

    abbrev upload_part : Route W
    upload_part = upload_route lib.handlers (new_upload_handler cfg db store jobs)

    abbrev tracks_part : Route W
    tracks_part = tracks_route lib.handlers db

    abbrev download_part : Route W
    download_part = download_route lib.handlers (new_download_handler cfg db store)

    abbrev router : R
    router = new_mux lib.mux (download_part ∷ tracks_part ∷ upload_part ∷ health_route ∷ [])

    -- The last of these is made first.
    abbrev services : List (Value W R)
    services =
        the_queries db
        ∷ a_pool db
        ∷ a_track_storage store
        ∷ an_s3_storage store
        ∷ a_publisher jobs
        ∷ a_config cfg
        ∷ []

    services-Built : Built lib env services
    unfolding rank
    services-Built =
        grow
          (grow
            (grow
              (grow
                (grow (grow Built.none_yet (Makes.calls_new_config cfg configured) tt)
                  (Makes.calls_new_transcode_publisher cfg jobs here refl) (omega arith))
                (Makes.calls_new_s3_storage cfg store w (there here) stored) (omega arith))
              (Makes.calls_new_track_storage store here) (omega arith))
            (Makes.calls_new_pool cfg db hook w' (there (there (there here))) pooled) (omega arith))
          (Makes.calls_new_queries db here) (omega arith)

    abbrev handlers : List (Value W R)
    handlers =
        download_value download_part
        ∷ tracks_value tracks_part
        ∷ upload_value upload_part
        ∷ health_value health_route
        ∷ services

    handlers-Built : Built lib env handlers
    unfolding rank
    handlers-Built =
        grow
          (grow
            (grow
              (grow services-Built (Makes.calls_new_health_handler health_route refl) (omega arith))
              (Makes.calls_new_upload_handler cfg db store jobs upload_part
                (search (here, there) depth 14) (search (here, there) depth 14)
                (search (here, there) depth 14) (search (here, there) depth 14) refl)
              (omega arith))
            (Makes.calls_new_tracks_handler db tracks_part (there (there here)) refl) (omega arith))
          (Makes.calls_new_download_handler cfg db store download_part
            (search (here, there) depth 14) (search (here, there) depth 14)
            (search (here, there) depth 14) refl)
          (omega arith)

    abbrev values : List (Value W R)
    values = a_server (new_http_server lib.net lib.mux cfg router).0 ∷ a_router router ∷ handlers

    values-Built : Built lib env values
    unfolding rank
    values-Built =
        grow
          (grow handlers-Built
            (Makes.calls_new_mux health_route upload_part tracks_part download_part
              (download_part ∷ tracks_part ∷ upload_part ∷ health_route ∷ []) router
              (search (here, there) depth 14) (search (here, there) depth 14)
              (search (here, there) depth 14) here (record { to = λ x i. i; from = λ x i. i }) refl)
            (omega arith))
          (Makes.calls_new_http_server cfg router _ (search (here, there) depth 14) here refl)
          (omega arith)

    -- Where NewConfig, NewS3Storage and NewPool do not fail, there is an order in which package fx
    -- can call the constructors that main and its modules provide, each of them once and behind
    -- those of its arguments, up to a server.
    pub provided-IsStarted : (made : List (Value W R)) × IsStarted made
    provided-IsStarted = (
      values,
      record {
        server = (new_http_server lib.net lib.mux cfg router).0;
        built = values-Built;
        started = here;
        called = search (here, there) depth 20;
        once = refl;
      },
    )
