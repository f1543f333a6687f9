-- ===== src/Tests/Building.antt =====
-- The application, built once.
use audio_streaming_service.Application.{IsBuildOrder}
use audio_streaming_service.Application.Build.{Value, component_of, Libraries}
use audio_streaming_service.Application.Startup.{IsStarted, provided-IsStarted}
use audio_streaming_service.Application.Serving.{IsAssembled, built-IsAssembled}
use audio_streaming_service.Common.{ℕ, ◌≡◌, refl, List, [], map, reverse, some, ok}
use audio_streaming_service.Events.{TranscodePublisher, new_transcode_publisher}
use audio_streaming_service.Repository.Pool.{new_pool, pool_hook}
use audio_streaming_service.Server.{Route}
use audio_streaming_service.Storage.{S3Storage, new_s3_storage}
use audio_streaming_service.Tests.Memory.{World, memory_client, memory_db, empty_world}
use audio_streaming_service.Tests.Routing.{memory_mux}
use audio_streaming_service.Tests.Settings.{settings_reader, settings, defaults, settings-read}
use audio_streaming_service.Tests.Setup.{packages, clock, marshal}
use audio_streaming_service.Tests.Shutdown.{pools, kafka, net}

abbrev libraries : Libraries World ℕ (List (Route World)) ℕ
libraries = record {
  env_pkg = settings_reader;
  aws = record {
    load_default_config = λ options w. (ok 0, w);
    new_from_config = λ a options. memory_client;
  };
  pools = pools;
  kafka = kafka;
  net = net;
  mux = memory_mux;
  handlers = packages ok;
  unix_nano = clock;
  marshal = marshal;
}

abbrev store : S3Storage World
store = record { bucket = defaults.s3_bucket; client = memory_client; cfg = some defaults }

abbrev jobs : TranscodePublisher World
jobs = (new_transcode_publisher kafka clock marshal defaults).0

store_made : (new_s3_storage libraries.aws defaults empty_world).0 ≡ ok store
unfolding new_s3_storage
store_made = refl

pool_made : (new_pool pools defaults empty_world).0 ≡ ok (memory_db, pool_hook pools memory_db)
unfolding new_pool
pool_made = refl

provided-IsStarted_example :
    (made : List (Value World (List (Route World)))) × IsStarted libraries settings made
provided-IsStarted_example =
    provided-IsStarted libraries settings defaults settings-read store empty_world store_made
      memory_db (pool_hook pools memory_db) empty_world pool_made

abbrev application :
    (made : List (Value World (List (Route World)))) × IsStarted libraries settings made
application =
    provided-IsStarted libraries settings defaults settings-read store empty_world store_made
      memory_db (pool_hook pools memory_db) empty_world pool_made

built-IsAssembled_example :
    IsAssembled libraries settings application.1.server
    × IsBuildOrder [] (reverse (map component_of application.0))
built-IsAssembled_example =
    built-IsAssembled libraries settings application.1.built application.1.server
      application.1.started
