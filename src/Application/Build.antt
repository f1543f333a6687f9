-- ===== src/Application/Build.antt =====
-- What package fx builds from the constructors that core-api/cmd/main.go provides, in whatever order
-- it calls them.
use audio_streaming_service.Application.{
  Component, config, s3_storage, track_storage, pool, queries, transcode_publisher, health_handler,
  upload_handler, tracks_handler, download_handler, mux_router, http_server,
}
use audio_streaming_service.Common.{
  ℕ, ◌≡◌, ◌≢◌, List, [], ◌∷◌, Option, none, some, Bytes, All, In, Result, ok,
}
use audio_streaming_service.Config.{Config}
use audio_streaming_service.Config.Environment.{Environment, EnvPackage, new_config}
use audio_streaming_service.Events.{
  TranscodeJobCreated, TranscodePublisher, KafkaPackage, new_transcode_publisher,
}
use audio_streaming_service.Handlers.{Packages}
use audio_streaming_service.Handlers.Download.{new_download_handler}
use audio_streaming_service.Handlers.Upload.{new_upload_handler}
use audio_streaming_service.Lifecycle.{Hook}
use audio_streaming_service.Repository.Pool.{PoolPackage, new_pool}
use audio_streaming_service.Repository.Queries.{Dbtx, new_queries}
use audio_streaming_service.Server.{
  Route, Mux, NetPackage, HttpServer, health_route, upload_route, tracks_route, download_route,
  new_mux, new_http_server,
}
use audio_streaming_service.Server.Serving.{SameRoutes}
use audio_streaming_service.TrackStorage.{new_track_storage}
use audio_streaming_service.Storage.{S3Storage, AwsPackage, new_s3_storage}

-- What a constructor has made
pub data Value (W R : Type 0) : Type 0 where
  a_config : Config → Value W R
  an_s3_storage : S3Storage W → Value W R
  a_track_storage : S3Storage W → Value W R
  a_pool : Dbtx W → Value W R
  the_queries : Dbtx W → Value W R
  a_publisher : TranscodePublisher W → Value W R
  health_value upload_value tracks_value download_value : Route W → Value W R
  a_router : R → Value W R
  a_server : HttpServer W → Value W R

module _ {W R : Type 0} where
  abbrev pub component_of : Value W R → Component
  component_of (a_config _) = config
  component_of (an_s3_storage _) = s3_storage
  component_of (a_track_storage _) = track_storage
  component_of (a_pool _) = pool
  component_of (the_queries _) = queries
  component_of (a_publisher _) = transcode_publisher
  component_of (health_value _) = health_handler
  component_of (upload_value _) = upload_handler
  component_of (tracks_value _) = tracks_handler
  component_of (download_value _) = download_handler
  component_of (a_router _) = mux_router
  component_of (a_server _) = http_server

-- `AsRoute`: the value as a `Route` of the group "routes", for the four constructors that `main`
-- puts there
abbrev pub as_route : {W R : Type 0} → Value W R → Option (Route W)
as_route (health_value r) = some r
as_route (upload_value r) = some r
as_route (tracks_value r) = some r
as_route (download_value r) = some r
as_route _ = none

abbrev pub also {ℓ} : {A : Type ℓ} → Option A → List A → List A
also none xs = xs
also (some x) xs = x ∷ xs

-- `TakesRoutes`: the group
abbrev pub takes_routes : {W R : Type 0} → List (Value W R) → List (Route W)
takes_routes [] = []
takes_routes (v ∷ made) = also (as_route v) (takes_routes made)

-- The packages outside the repository that the constructors call
pub record Libraries (W L R A : Type 0) : Type 0 where
  pub env_pkg : EnvPackage
  pub aws : AwsPackage W A
  pub pools : PoolPackage W
  pub kafka : KafkaPackage W
  pub net : NetPackage W L
  pub mux : Mux W R
  pub handlers : Packages W
  pub unix_nano : W → ℕ
  pub marshal : TranscodeJobCreated → Result Bytes

module _ {W L R A : Type 0} (lib : Libraries W L R A) (env : Environment) where
  -- A constructor can make the value of the values made before. The group "routes" is complete when
  -- its four constructors have been called, and comes in any order.
  pub data Makes (made : List (Value W R)) : Value W R → Type 0 where
    calls_new_config : (c : Config) → new_config lib.env_pkg env ≡ ok c → Makes made (a_config c)
    calls_new_s3_storage :
        (c : Config) (s : S3Storage W) (w : W)
        → In (a_config c) made
        → (new_s3_storage lib.aws c w).0 ≡ ok s
        → Makes made (an_s3_storage s)
    calls_new_track_storage :
        (s : S3Storage W)
        → In (an_s3_storage s) made
        → Makes made (a_track_storage (new_track_storage s))
    calls_new_pool :
        (c : Config) (db : Dbtx W) (hook : Hook W) (w : W)
        → In (a_config c) made
        → (new_pool lib.pools c w).0 ≡ ok (db, hook)
        → Makes made (a_pool db)
    calls_new_queries :
        (db : Dbtx W) → In (a_pool db) made → Makes made (the_queries (new_queries db))
    calls_new_transcode_publisher :
        (c : Config) (p : TranscodePublisher W)
        → In (a_config c) made
        → p ≡ (new_transcode_publisher lib.kafka lib.unix_nano lib.marshal c).0
        → Makes made (a_publisher p)
    calls_new_health_handler : (r : Route W) → r ≡ health_route → Makes made (health_value r)
    calls_new_upload_handler :
        (c : Config) (q : Dbtx W) (s : S3Storage W) (p : TranscodePublisher W) (r : Route W)
        → In (a_config c) made
        → In (the_queries q) made
        → In (a_track_storage s) made
        → In (a_publisher p) made
        → r ≡ upload_route lib.handlers (new_upload_handler c q s p)
        → Makes made (upload_value r)
    calls_new_tracks_handler :
        (q : Dbtx W) (r : Route W)
        → In (the_queries q) made
        → r ≡ tracks_route lib.handlers q
        → Makes made (tracks_value r)
    calls_new_download_handler :
        (c : Config) (q : Dbtx W) (s : S3Storage W) (r : Route W)
        → In (a_config c) made
        → In (the_queries q) made
        → In (a_track_storage s) made
        → r ≡ download_route lib.handlers (new_download_handler c q s)
        → Makes made (download_value r)
    calls_new_mux :
        (health_check upload tracks download : Route W) (routes : List (Route W)) (router : R)
        → In (health_value health_check) made
        → In (upload_value upload) made
        → In (tracks_value tracks) made
        → In (download_value download) made
        → SameRoutes routes (takes_routes made)
        → router ≡ new_mux lib.mux routes
        → Makes made (a_router router)
    calls_new_http_server :
        (c : Config) (router : R) (server : HttpServer W)
        → In (a_config c) made
        → In (a_router router) made
        → server ≡ (new_http_server lib.net lib.mux c router).0
        → Makes made (a_server server)

  -- The values that have been made, the last one first: each constructor is called once at most.
  pub data Built : List (Value W R) → Type 0 where
    none_yet : Built []
    made_next :
        {v : Value W R} {made : List (Value W R)}
        → Built made
        → Makes made v
        → All (λ u. component_of u ≢ component_of v) made
        → Built (v ∷ made)
