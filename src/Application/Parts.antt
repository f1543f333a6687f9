-- ===== src/Application/Parts.antt =====
-- What each constructor of the application was given.
use audio_streaming_service.Application.Build.{
  Value, a_config, an_s3_storage, a_track_storage, a_pool, the_queries, a_publisher, health_value,
  upload_value, tracks_value, download_value, component_of, Libraries, Makes, Built,
}
use audio_streaming_service.Common.{◌≡◌, refl, sym, List, In, here, there, ok, All-In}
use audio_streaming_service.Config.{Config}
use audio_streaming_service.Config.Environment.{Environment, new_config}
use audio_streaming_service.Events.{TranscodePublisher, new_transcode_publisher}
use audio_streaming_service.Handlers.Download.{new_download_handler}
use audio_streaming_service.Handlers.Upload.{UploadHandler, new_upload_handler}
use audio_streaming_service.Lifecycle.{Hook}
use audio_streaming_service.Repository.Pool.{new_pool}
use audio_streaming_service.Repository.Queries.{Dbtx}
use audio_streaming_service.Server.{Route, health_route, upload_route, tracks_route, download_route}
use audio_streaming_service.Storage.{S3Storage, new_s3_storage}

-- The upload handler of a configuration, an object storage and a pool
abbrev pub uploads_of :
    {W L R A : Type 0} → Libraries W L R A → Config → S3Storage W → Dbtx W → UploadHandler W
uploads_of lib cfg store db =
    new_upload_handler cfg db store
      (new_transcode_publisher lib.kafka lib.unix_nano lib.marshal cfg).0

module _ {W L R A : Type 0} (lib : Libraries W L R A) (env : Environment) where
  -- The values that were there when a value was made
  pub record Origin (made : List (Value W R)) (v : Value W R) : Type 0 where
    pub earlier : List (Value W R)
    pub makes : Makes lib env earlier v
    pub kept : (u : Value W R) → In u earlier → In u made

  pub Origin-In :
      {made : List (Value W R)} {v : Value W R} → Built lib env made → In v made → Origin made v
  Origin-In Built.none_yet i = elim i [ ]
  Origin-In (Built.made_next {made = made} before m fresh) here = record {
    earlier = made;
    makes = m;
    kept = λ u i. there i;
  }
  Origin-In (Built.made_next before m fresh) (there i) =
      let o = Origin-In before i in
      record { earlier = o.earlier; makes = o.makes; kept = λ u j. there (o.kept u j) }

  -- A component has one value.
  made_once :
      {made : List (Value W R)} (u v : Value W R)
      → Built lib env made
      → In u made
      → In v made
      → component_of u ≡ component_of v
      → u ≡ v
  made_once u v Built.none_yet i j e = elim i [ ]
  made_once u v (Built.made_next before m fresh) here here e = refl
  made_once u v (Built.made_next before m fresh) here (there j) e =
      absurd (All-In _ _ j fresh (sym e))
  made_once u v (Built.made_next before m fresh) (there i) here e = absurd (All-In _ _ i fresh e)
  made_once u v (Built.made_next before m fresh) (there i) (there j) e = made_once u v before i j e

  module _ {made : List (Value W R)} (built : Built lib env made) where
    one_config : (c d : Config) → In (a_config c) made → In (a_config d) made → c ≡ d
    one_config c d i j = let e = made_once (a_config c) (a_config d) built i j refl in cc

    one_store :
        (s t : S3Storage W) → In (a_track_storage s) made → In (a_track_storage t) made → s ≡ t
    one_store s t i j =
        let e = made_once (a_track_storage s) (a_track_storage t) built i j refl in cc

    one_db : (p q : Dbtx W) → In (the_queries p) made → In (the_queries q) made → p ≡ q
    one_db p q i j = let e = made_once (the_queries p) (the_queries q) built i j refl in cc

    pub config_part : (c : Config) → In (a_config c) made → new_config lib.env_pkg env ≡ ok c
    config_part c i = elim (Origin-In built i).makes [ Makes.calls_new_config c' e ↦ e ]

    pub health_part : (r : Route W) → In (health_value r) made → r ≡ health_route
    health_part r i = elim (Origin-In built i).makes [ Makes.calls_new_health_handler r' e ↦ e ]

    -- The parts that are made of the configuration `cfg`
    module _ (cfg : Config) (cfg_is : In (a_config cfg) made) where
      client_part :
          (s : S3Storage W)
          → In (an_s3_storage s) made
          → (w : W) × ((new_s3_storage lib.aws cfg w).0 ≡ ok s)
      client_part s i =
          let o = Origin-In built i in
          elim o.makes [
            | Makes.calls_new_s3_storage c s' w j e ↦
                (w, rw (one_config c cfg (o.kept (a_config c) j) cfg_is) at e)
          ]

      pub store_part :
          (s : S3Storage W)
          → In (a_track_storage s) made
          → (w : W) × ((new_s3_storage lib.aws cfg w).0 ≡ ok s)
      store_part s i =
          let o = Origin-In built i in
          elim o.makes [
            | Makes.calls_new_track_storage t j ↦ client_part t (o.kept (an_s3_storage t) j)
          ]

      pool_part :
          (db : Dbtx W)
          → In (a_pool db) made
          → (hook : Hook W) × (w : W) × ((new_pool lib.pools cfg w).0 ≡ ok (db, hook))
      pool_part db i =
          let o = Origin-In built i in
          elim o.makes [
            | Makes.calls_new_pool c db' hook w j e ↦
                (hook, w, rw (one_config c cfg (o.kept (a_config c) j) cfg_is) at e)
          ]

      pub db_part :
          (q : Dbtx W)
          → In (the_queries q) made
          → (hook : Hook W) × (w : W) × ((new_pool lib.pools cfg w).0 ≡ ok (q, hook))
      db_part q i =
          let o = Origin-In built i in
          elim o.makes [ Makes.calls_new_queries db j ↦ pool_part db (o.kept (a_pool db) j) ]

      jobs_part :
          (p : TranscodePublisher W)
          → In (a_publisher p) made
          → p ≡ (new_transcode_publisher lib.kafka lib.unix_nano lib.marshal cfg).0
      jobs_part p i =
          let o = Origin-In built i in
          elim o.makes [
            | Makes.calls_new_transcode_publisher c p' j e ↦
                rw (one_config c cfg (o.kept (a_config c) j) cfg_is) at e
          ]

      module _ (store : S3Storage W) (store_is : In (a_track_storage store) made) (db : Dbtx W)
          (db_is : In (the_queries db) made) where
        pub upload_part :
            (r : Route W)
            → In (upload_value r) made
            → r ≡ upload_route lib.handlers (uploads_of lib cfg store db)
        upload_part r i =
            let o = Origin-In built i in
            elim o.makes [
              | Makes.calls_new_upload_handler c q s p r' j k l m e ↦ cc (
                e,
                one_config c cfg (o.kept (a_config c) j) cfg_is,
                one_db q db (o.kept (the_queries q) k) db_is,
                one_store s store (o.kept (a_track_storage s) l) store_is,
                jobs_part p (o.kept (a_publisher p) m),
              )
            ]

        pub tracks_part :
            (r : Route W) → In (tracks_value r) made → r ≡ tracks_route lib.handlers db
        tracks_part r i =
            let o = Origin-In built i in
            elim o.makes [
              | Makes.calls_new_tracks_handler q r' j e ↦
                  cc (e, one_db q db (o.kept (the_queries q) j) db_is)
            ]

        pub download_part :
            (r : Route W)
            → In (download_value r) made
            → r ≡ download_route lib.handlers (new_download_handler cfg db store)
        download_part r i =
            let o = Origin-In built i in
            elim o.makes [
              | Makes.calls_new_download_handler c q s r' j k l e ↦ cc (
                e,
                one_config c cfg (o.kept (a_config c) j) cfg_is,
                one_db q db (o.kept (the_queries q) k) db_is,
                one_store s store (o.kept (a_track_storage s) l) store_is,
              )
            ]
