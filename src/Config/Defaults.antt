-- ===== src/Config/Defaults.antt =====
-- What `NewConfig` returns of an environment that sets nothing but what is required.
use audio_streaming_service.Common.{
  ◌*◌, ◌≡◌, ◌≢◌, refl, List, [], ◌∷◌, All, none, some, Bytes, codes, ok, pos, arith,
}
use audio_streaming_service.Config.Environment.{Environment, required, EnvPackage, new_config}
use audio_streaming_service.Std.Format.{decimal}
use audio_streaming_service.Config.Package.{IsEnvPackage}

abbrev pub default_names : List Bytes
default_names =
    codes "CORE_API_PORT"
    ∷ codes "CORE_API_READ_HEADER_TIMEOUT"
    ∷ codes "CORE_API_READ_TIMEOUT"
    ∷ codes "CORE_API_WRITE_TIMEOUT"
    ∷ codes "CORE_API_IDLE_TIMEOUT"
    ∷ codes "CORE_API_UPLOAD_MAX_BYTES"
    ∷ codes "CORE_API_DOWNLOAD_URL_EXPIRES"
    ∷ codes "CORE_API_TRANSCODE_JOB_PRIORITY"
    ∷ codes "S3_REGION"
    ∷ codes "KAFKA_BROKERS"
    ∷ codes "KAFKA_TRANSCODE_TOPIC"
    ∷ codes "KAFKA_WRITE_TIMEOUT"
    ∷ codes "KAFKA_READ_TIMEOUT"
    ∷ codes "POSTGRES_HOST"
    ∷ codes "POSTGRES_PORT"
    ∷ codes "POSTGRES_SSLMODE"
    ∷ []

module _ (pkg : EnvPackage) (laws : IsEnvPackage pkg) (env : Environment) where
  -- Where each required variable is set to a text that is not empty, and no other variable is set,
  -- the configuration has those texts and the defaults of the struct tags for all else.
  pub new_config-defaults :
      (s3_endpoint s3_bucket s3_access_key s3_secret_key s3_public_base_url postgres_user
        postgres_password postgres_db : Bytes)
      → env (codes "S3_ENDPOINT") ≡ some s3_endpoint
      → env (codes "S3_BUCKET") ≡ some s3_bucket
      → env (codes "S3_ACCESS_KEY") ≡ some s3_access_key
      → env (codes "S3_SECRET_KEY") ≡ some s3_secret_key
      → env (codes "S3_PUBLIC_BASE_URL") ≡ some s3_public_base_url
      → env (codes "POSTGRES_USER") ≡ some postgres_user
      → env (codes "POSTGRES_PASSWORD") ≡ some postgres_password
      → env (codes "POSTGRES_DB") ≡ some postgres_db
      → All
          (λ v. v ≢ [])
          (s3_endpoint ∷ s3_bucket ∷ s3_access_key ∷ s3_secret_key ∷ s3_public_base_url
            ∷ postgres_user ∷ postgres_password ∷ postgres_db ∷ [])
      → All (λ name. env name ≡ none) default_names
      → new_config pkg env
        ≡ ok (record {
          port = pos 8000;
          http_read_header_timeout = 5 * 1000000000;
          http_read_timeout = 15 * 1000000000;
          http_write_timeout = 15 * 1000000000;
          http_idle_timeout = 60 * 1000000000;
          upload_max_bytes = 52428800;
          download_url_expires = 15 * 60000000000;
          transcode_job_priority = pos 1;
          s3_endpoint = s3_endpoint;
          s3_region = codes "ru-1";
          s3_bucket = s3_bucket;
          s3_access_key = s3_access_key;
          s3_secret_key = s3_secret_key;
          s3_public_base_url = s3_public_base_url;
          kafka_brokers = codes "localhost:9094";
          kafka_transcode_topic = codes "transcode-jobs";
          kafka_write_timeout = 10 * 1000000000;
          kafka_read_timeout = 10 * 1000000000;
          postgres_host = codes "localhost";
          postgres_port = pos 5432;
          postgres_user = postgres_user;
          postgres_password = postgres_password;
          postgres_db = postgres_db;
          postgres_ssl_mode = codes "disable";
        })
  unfolding new_config decimal
  new_config-defaults s3_endpoint s3_bucket s3_access_key s3_secret_key s3_public_base_url
        postgres_user postgres_password postgres_db e0 e1 e2 e3 e4 e5 e6 e7
        (n0, (n1, (n2, (n3, (n4, (n5, (n6, (n7, _))))))))
        (
          u0,
          (
            u1,
            (
              u2,
              (u3, (u4, (u5, (u6, (u7, (u8, (u9, (u10, (u11, (u12, (u13, (u14, (u15, _))))))))))))),
            ),
          ),
        ) =
      rw
        (
          laws.unset env (codes "CORE_API_PORT") (codes "8000") u0,
          laws.int 8000 (omega arith),
          laws.unset env (codes "CORE_API_READ_HEADER_TIMEOUT") (codes "5s") u1,
          laws.seconds 5 (omega arith),
          laws.unset env (codes "CORE_API_READ_TIMEOUT") (codes "15s") u2,
          laws.seconds 15 (omega arith),
          laws.unset env (codes "CORE_API_WRITE_TIMEOUT") (codes "15s") u3,
          laws.seconds 15 (omega arith),
          laws.unset env (codes "CORE_API_IDLE_TIMEOUT") (codes "60s") u4,
          laws.seconds 60 (omega arith),
          laws.unset env (codes "CORE_API_UPLOAD_MAX_BYTES") (codes "52428800") u5,
          laws.int64 52428800 (omega arith),
          laws.unset env (codes "CORE_API_DOWNLOAD_URL_EXPIRES") (codes "15m") u6,
          laws.minutes 15 (omega arith),
          laws.unset env (codes "CORE_API_TRANSCODE_JOB_PRIORITY") (codes "1") u7,
          laws.int 1 (omega arith),
          laws.set env (required (codes "S3_ENDPOINT")) s3_endpoint e0 n0,
          laws.unset env (codes "S3_REGION") (codes "ru-1") u8,
          laws.set env (required (codes "S3_BUCKET")) s3_bucket e1 n1,
          laws.set env (required (codes "S3_ACCESS_KEY")) s3_access_key e2 n2,
          laws.set env (required (codes "S3_SECRET_KEY")) s3_secret_key e3 n3,
          laws.set env (required (codes "S3_PUBLIC_BASE_URL")) s3_public_base_url e4 n4,
          laws.unset env (codes "KAFKA_BROKERS") (codes "localhost:9094") u9,
          laws.unset env (codes "KAFKA_TRANSCODE_TOPIC") (codes "transcode-jobs") u10,
          laws.unset env (codes "KAFKA_WRITE_TIMEOUT") (codes "10s") u11,
          laws.seconds 10 (omega arith),
          laws.unset env (codes "KAFKA_READ_TIMEOUT") (codes "10s") u12,
          laws.seconds 10 (omega arith),
          laws.unset env (codes "POSTGRES_HOST") (codes "localhost") u13,
          laws.unset env (codes "POSTGRES_PORT") (codes "5432") u14,
          laws.int 5432 (omega arith),
          laws.set env (required (codes "POSTGRES_USER")) postgres_user e5 n5,
          laws.set env (required (codes "POSTGRES_PASSWORD")) postgres_password e6 n6,
          laws.set env (required (codes "POSTGRES_DB")) postgres_db e7 n7,
          laws.unset env (codes "POSTGRES_SSLMODE") (codes "disable") u15,
        )
        refl
