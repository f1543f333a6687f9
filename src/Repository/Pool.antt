-- ===== src/Repository/Pool.antt =====
-- core-api/repositories/fx.go: the connection pool.
use audio_streaming_service.Common.{Bytes, Result, ok, err, Exec}
use audio_streaming_service.Config.{Config, database_url}
use audio_streaming_service.Lifecycle.{Hook, nothing}
use audio_streaming_service.Repository.Queries.{Dbtx}

-- Package pgxpool: a pool for a database URL, and closing it
pub record PoolPackage (W : Type 0) : Type 0 where
  pub new : Bytes → Exec W (Dbtx W)
  pub close : Dbtx W → W → W

module _ {W : Type 0} (pools : PoolPackage W) where
  abbrev pub pool_hook : Dbtx W → Hook W
  pool_hook pool = record { on_start = nothing; on_stop = λ w. (ok tt, pools.close pool w) }

  abbrev pub with_hook : Result (Dbtx W) × W → Result (Dbtx W × Hook W) × W
  with_hook (ok pool, w) = (ok (pool, pool_hook pool), w)
  with_hook (err e, w) = (err e, w)

  -- `NewPool`, with the hook that it appends; `NewQueries` wraps the pool and does nothing else.
  unfoldable pub new_pool : Config → Exec W (Dbtx W × Hook W)
  unfolding database_url
  new_pool cfg w = with_hook (pools.new (database_url cfg) w)
