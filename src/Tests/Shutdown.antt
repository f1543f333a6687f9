-- ===== src/Tests/Shutdown.antt =====
-- An order in which the constructors can be called, and a lifecycle that stops.
use audio_streaming_service.Application.Startup.{rank}
use audio_streaming_service.Common.{
  ℕ, ◌≡◌, ◌≢◌, refl, List, [], ◌∷◌, ◌++◌, map, reverse, reverse-append, ◌+◌, All, In, here, there,
  arith, ok, Exec,
}
use audio_streaming_service.Application.{
  Component, config, s3_storage, track_storage, pool, queries, transcode_publisher, health_handler,
  upload_handler, tracks_handler, download_handler, mux_router, http_server, takes, hooked,
  IsBuildOrder, hook_of,
}
use audio_streaming_service.Application.Shutdown.{stop-hooked}
use audio_streaming_service.Events.{KafkaPackage}
use audio_streaming_service.Lifecycle.{Hook}
use audio_streaming_service.Repository.Pool.{PoolPackage}
use audio_streaming_service.Server.{NetPackage, server_of}
use audio_streaming_service.Tests.Memory.{World, memory_db}
use audio_streaming_service.Tests.Routing.{memory_mux, registered}
use audio_streaming_service.Tests.Setup.{memory_writer, clock, marshal, config as settings}

not-In :
    (c : Component) (called : List Component) → All (λ d. rank d ≢ rank c) called → ¬ In c called
not-In c [] _ i = elim i [ ]
not-In c (d ∷ called) (n, ns) here = n refl
not-In c (d ∷ called) (n, ns) (there i) = not-In c called ns i

abbrev order : List Component
order =
    config ∷ transcode_publisher ∷ s3_storage ∷ track_storage ∷ pool ∷ queries ∷ health_handler
    ∷ download_handler ∷ tracks_handler ∷ upload_handler ∷ mux_router ∷ http_server ∷ []

order-IsBuildOrder : IsBuildOrder [] order
unfolding takes rank
order-IsBuildOrder = (
  not-In _ _ (omega arith),
  tt,
  (
    not-In _ _ (omega arith),
    (search (here, there) depth 14),
    (
      not-In _ _ (omega arith),
      (search (here, there) depth 14),
      (
        not-In _ _ (omega arith),
        (search (here, there) depth 14),
        (
          not-In _ _ (omega arith),
          (search (here, there) depth 14),
          (
            not-In _ _ (omega arith),
            (search (here, there) depth 14),
            (
              not-In _ _ (omega arith),
              tt,
              (
                not-In _ _ (omega arith),
                (search (here, there) depth 14),
                (
                  not-In _ _ (omega arith),
                  (search (here, there) depth 14),
                  (
                    not-In _ _ (omega arith),
                    (search (here, there) depth 14),
                    (
                      not-In _ _ (omega arith),
                      (search (here, there) depth 14),
                      (not-In _ _ (omega arith), (search (here, there) depth 14), tt),
                    ),
                  ),
                ),
              ),
            ),
          ),
        ),
      ),
    ),
  ),
)

run_stops : List (Hook World) → Exec World (Unit {0})
run_stops [] w = (ok tt, w)
run_stops (h ∷ hs) w = run_stops hs (h.on_stop w).1

stop_all : List (Hook World) → Exec World (Unit {0})
unfolding run_stops
stop_all hs = run_stops (reverse hs)

stop_all-append :
    (hs : List (Hook World)) (h : Hook World) (w : World)
    → (stop_all (hs ++ h ∷ []) w).1 ≡ (stop_all hs (h.on_stop w).1).1
unfolding stop_all run_stops
stop_all-append hs h w = rw (reverse-append hs (h ∷ [])) refl

abbrev pub later : World → World
later w = record w { now = w.now + 1 }

-- Each of the three closings takes a unit of time.
abbrev pub pools : PoolPackage World
pools = record { new = λ url w. (ok memory_db, w); close = λ pool w. later w }

abbrev pub kafka : KafkaPackage World
kafka = record { writer = λ options. memory_writer; close = λ options w. (ok tt, later w) }

abbrev pub net : NetPackage World ℕ
net = record {
  listen = λ addr w. (ok 0, w);
  serve = λ srv ln w. w;
  shutdown = λ srv w. (ok tt, later w);
}

stop-hooked_example :
    (earlier : List Component) × In pool earlier
    × In transcode_publisher earlier
    × ((w : World)
        → (stop_all
            (map
              (hook_of pools kafka net memory_mux clock marshal settings memory_db registered)
              (hooked order))
            w).1
          ≡ (stop_all
              (map
                (hook_of pools kafka net memory_mux clock marshal settings memory_db registered)
                earlier)
              (net.shutdown (server_of net memory_mux settings registered) w).1).1)
stop-hooked_example =
    stop-hooked pools kafka net memory_mux clock marshal settings memory_db registered stop_all
      stop_all-append order order-IsBuildOrder (search (here, there) depth 14)
