-- ===== src/Application/Serving.antt =====
-- The server that package fx builds, in whatever order it calls the constructors.
use mathlib.Core.Option.{some-injective}
use audio_streaming_service.Application.{IsBuildOrder}
use audio_streaming_service.Application.BuildOrder.{Built-IsBuildOrder}
use audio_streaming_service.Application.Build.{
  Value, a_config, an_s3_storage, a_track_storage, a_pool, the_queries, a_publisher, health_value,
  upload_value, tracks_value, download_value, a_router, a_server, component_of, as_route,
  takes_routes, Libraries, Makes, Built,
}
use audio_streaming_service.Application.Group.{In-takes_routes, takes_routes-In}
use audio_streaming_service.Application.Parts.{
  Origin-In, config_part, health_part, store_part, db_part, upload_part, tracks_part, download_part,
  uploads_of,
}
use audio_streaming_service.Common.{
  map, reverse, ◌≡◌, refl, sym, ap, ◌∙◌, List, [], some, In, here, there, ok,
}
use audio_streaming_service.Config.{Config}
use audio_streaming_service.Config.Environment.{Environment, new_config}
use audio_streaming_service.Handlers.Download.{new_download_handler}
use audio_streaming_service.Lifecycle.{Hook}
use audio_streaming_service.Repository.Pool.{new_pool}
use audio_streaming_service.Repository.Queries.{Dbtx}
use audio_streaming_service.Server.{Route, HttpServer, new_http_server, new_mux}
use audio_streaming_service.Server.Serving.{SameRoutes, app_routes}
use audio_streaming_service.Storage.{S3Storage, new_s3_storage}

module _ {W L R A : Type 0} (lib : Libraries W L R A) (env : Environment) where
  -- The parts of a server: one configuration, one object storage and one pool, which all handlers
  -- share, and the four routes.
  pub record IsAssembled (server : HttpServer W) : Type 0 where
    pub cfg : Config
    pub store : S3Storage W
    pub db : Dbtx W
    pub routes : List (Route W)
    pub configured : new_config lib.env_pkg env ≡ ok cfg
    pub stored : (w : W) × ((new_s3_storage lib.aws cfg w).0 ≡ ok store)
    pub pooled : (hook : Hook W) × (w : W) × ((new_pool lib.pools cfg w).0 ≡ ok (db, hook))
    pub same : SameRoutes routes (
        app_routes lib.handlers
          (uploads_of lib cfg store db)
          (new_download_handler cfg db store)
          db)
    pub served : server ≡ (new_http_server lib.net lib.mux cfg (new_mux lib.mux routes)).0

  module _ {made : List (Value W R)} (built : Built lib env made) where
    module _ (cfg : Config) (cfg_is : In (a_config cfg) made) (store : S3Storage W)
        (store_is : In (a_track_storage store) made) (db : Dbtx W)
        (db_is : In (the_queries db) made) where
      abbrev routes_of_app : List (Route W)
      routes_of_app =
          app_routes lib.handlers (uploads_of lib cfg store db) (new_download_handler cfg db store)
            db

      -- A route of the group is one of the four.
      group_part :
          (v : Value W R) (x : Route W) → In v made → as_route v ≡ some x → In x routes_of_app
      group_part (health_value r) x i e =
          rw (sym (some-injective _ _ e)) (rw (health_part lib env built r i) here)
      group_part (upload_value r) x i e =
          rw (sym (some-injective _ _ e))
            (rw (upload_part lib env built cfg cfg_is store store_is db db_is r i) (there here))
      group_part (tracks_value r) x i e = rw (sym (some-injective _ _ e)) (
          rw (tracks_part lib env built cfg cfg_is store store_is db db_is r i)
            (there (there here)))
      group_part (download_value r) x i e = rw (sym (some-injective _ _ e)) (
          rw (download_part lib env built cfg cfg_is store store_is db db_is r i)
            (there (there (there here))))
      group_part (a_config _) x i e = cc
      group_part (an_s3_storage _) x i e = cc
      group_part (a_track_storage _) x i e = cc
      group_part (a_pool _) x i e = cc
      group_part (the_queries _) x i e = cc
      group_part (a_publisher _) x i e = cc
      group_part (a_router _) x i e = cc
      group_part (a_server _) x i e = cc

      -- The router has the routes of the application, and no other.
      routes_part :
          (earlier : List (Value W R)) (kept : (v : Value W R) → In v earlier → In v made)
          (h u t d : Route W) (routes : List (Route W))
          → In (health_value h) earlier
          → In (upload_value u) earlier
          → In (tracks_value t) earlier
          → In (download_value d) earlier
          → SameRoutes routes (takes_routes earlier)
          → SameRoutes routes routes_of_app
      routes_part earlier kept h u t d routes hi ui ti di same = record {
        to = λ x i.
            let (v, j, e) = takes_routes-In earlier (same.to x i) in group_part v x (kept v j) e;
        from = λ x i. same.from x (back x i);
      }
        where
          back : (x : Route W) → In x routes_of_app → In x (takes_routes earlier)
          back x here =
              In-takes_routes earlier hi (ap some (health_part lib env built h (kept _ hi)))
          back x (there here) =
              In-takes_routes earlier ui (
                ap some
                  (upload_part lib env built cfg cfg_is store store_is db db_is u (kept _ ui)))
          back x (there (there here)) =
              In-takes_routes earlier ti (
                ap some
                  (tracks_part lib env built cfg cfg_is store store_is db db_is t (kept _ ti)))
          back x (there (there (there here))) = In-takes_routes earlier di (
              ap some
                (download_part lib env built cfg cfg_is store store_is db db_is d (kept _ di)))
          back x (there (there (there (there i)))) = elim i [ ]

    assembled : (server : HttpServer W) → In (a_server server) made → IsAssembled server
    assembled server is =
        let o = Origin-In lib env built is in
        elim o.makes [
          | Makes.calls_new_http_server cfg router server' i j e ↦
              let ci = o.kept (a_config cfg) i in
              let r = Origin-In lib env built (o.kept (a_router router) j) in
              elim r.makes [
                | Makes.calls_new_mux h u t d routes router' hi ui ti di same e' ↦
                    let p = Origin-In lib env built (r.kept (upload_value u) ui) in
                    elim p.makes [
                      | Makes.calls_new_upload_handler c db store jobs r' _ qi si _ _ ↦
                          let q = p.kept (the_queries db) qi in
                          let s = p.kept (a_track_storage store) si in
                          record {
                            cfg = cfg;
                            store = store;
                            db = db;
                            routes = routes;
                            configured = config_part lib env built cfg ci;
                            stored = store_part lib env built cfg ci store s;
                            pooled = db_part lib env built cfg ci db q;
                            same =
                                routes_part cfg ci store s db q r.earlier r.kept h u t d routes hi
                                  ui ti di same;
                            served = e ∙ rw e' refl;
                          }
                    ]
              ]
        ]

    -- In whatever order package fx calls the constructors, each once at most and behind those of its
    -- arguments: that order is a build order, and the server that comes out is made of one
    -- configuration, the one that NewConfig returned, and serves the four routes, in some order,
    -- with handlers that share one object storage and one pool, both made of that configuration.
    pub built-IsAssembled :
        (server : HttpServer W)
        → In (a_server server) made
        → IsAssembled server × IsBuildOrder [] (reverse (map component_of made))
    built-IsAssembled server is = (assembled server is, Built-IsBuildOrder lib env built)
