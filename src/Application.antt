-- ===== src/Application.antt =====
-- core-api/cmd/main.go: the constructors that are provided, and what each of them takes. Package fx
-- calls a constructor once, and after those of its arguments.
pub mod Build
pub mod BuildOrder
pub mod Group
pub mod Parts
pub mod Serving
pub mod Shutdown
pub mod Startup
use audio_streaming_service.Common.{
  ℕ, Bytes, Bool, true, false, if◌then◌else◌, List, [], ◌∷◌, ◌++◌, All, In, Result, ok, err, Exec,
}
use audio_streaming_service.Config.{Config}
use audio_streaming_service.Events.{TranscodeJobCreated, KafkaPackage, new_transcode_publisher}
use audio_streaming_service.Lifecycle.{Hook, nothing}
use audio_streaming_service.Repository.Pool.{PoolPackage, pool_hook}
use audio_streaming_service.Repository.Queries.{Dbtx}
use audio_streaming_service.Server.{Mux, NetPackage, new_http_server}

-- What the constructors make, by the names of their results
pub data Component : Type 0 where
  config s3_storage track_storage pool queries transcode_publisher : Component
  health_handler upload_handler tracks_handler download_handler : Component
  mux_router http_server : Component

-- What the variables `Module` of the packages repositories, storage, usecases and events provide
abbrev repositories_module : List Component
repositories_module = pool ∷ queries ∷ []

abbrev storage_module : List Component
storage_module = s3_storage ∷ []

abbrev usecases_module : List Component
usecases_module = track_storage ∷ []

abbrev events_module : List Component
events_module = transcode_publisher ∷ []

-- What `main` provides
abbrev pub provided : List Component
provided =
    config ∷ health_handler ∷ upload_handler ∷ tracks_handler ∷ download_handler ∷ mux_router
      ∷ http_server ∷ repositories_module
    ++ storage_module
    ++ usecases_module
    ++ events_module

-- The arguments of `NewConfig`, `NewS3Storage`, `NewTrackStorage`, `NewPool`, `NewQueries`,
-- `NewTranscodePublisher`, the four handlers' constructors, `NewMux` and `NewHTTPServer`
unfoldable pub takes : Component → List Component
takes config = []
takes s3_storage = config ∷ []
takes track_storage = s3_storage ∷ []
takes pool = config ∷ []
takes queries = pool ∷ []
takes transcode_publisher = config ∷ []
takes health_handler = []
takes upload_handler = queries ∷ track_storage ∷ transcode_publisher ∷ config ∷ []
takes tracks_handler = queries ∷ []
takes download_handler = queries ∷ track_storage ∷ config ∷ []
takes mux_router = health_handler ∷ upload_handler ∷ tracks_handler ∷ download_handler ∷ []
takes http_server = config ∷ mux_router ∷ []

-- Whether the constructor appends a hook to the lifecycle
unfoldable pub appends : Component → Bool
appends pool = true
appends transcode_publisher = true
appends http_server = true
appends _ = false

-- The hooks that have been appended, by the components that they belong to
unfoldable pub hooked : List Component → List Component
unfolding appends
hooked [] = []
hooked (c ∷ cs) = let rest = hooked cs in if appends c then c ∷ rest else rest

-- An order in which the constructors may be called, behind those that have been
abbrev pub IsBuildOrder : List Component → List Component → Type 0
IsBuildOrder called [] = Unit
IsBuildOrder called (c ∷ cs) =
    (¬ In c called) × All (λ d. In d called) (takes c) × IsBuildOrder (c ∷ called) cs

-- The hooks themselves, for the pool `db` and the router `router` that have been made
module _ {W L R : Type 0} (pools : PoolPackage W) (kafka : KafkaPackage W) (net : NetPackage W L)
    (mux : Mux W R) (unix_nano : W → ℕ) (marshal : TranscodeJobCreated → Result Bytes)
    (cfg : Config) (db : Dbtx W) (router : R) where
  unfoldable pub hook_of : Component → Hook W
  unfolding new_transcode_publisher new_http_server
  hook_of pool = pool_hook pools db
  hook_of transcode_publisher = (new_transcode_publisher kafka unix_nano marshal cfg).1
  hook_of http_server = (new_http_server net mux cfg router).1
  hook_of _ = record { on_start = nothing; on_stop = nothing }
