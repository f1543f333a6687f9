-- ===== src/Config.antt =====
-- core-api/server/config.go
pub mod DatabaseUrls
pub mod Defaults
pub mod Environment
pub mod Package
pub mod Required
use audio_streaming_service.Common.{
  codes, ◌++◌, ℕ, [], ◌∷◌, if◌then◌else◌, Bytes, bytes_eq, Result, ok, ℤ,
}
use audio_streaming_service.Std.Format.{decimal_int}
use audio_streaming_service.Std.Path.{path_join}
use audio_streaming_service.Std.Url.{encode_value, url_string}

-- Durations are nanoseconds. `CORE_API_UPLOAD_MAX_BYTES` and the durations are taken to be set to
-- values that are not negative.
pub record Config : Type 0 where
  pub port : ℤ
  pub http_read_header_timeout : ℕ
  pub http_read_timeout : ℕ
  pub http_write_timeout : ℕ
  pub http_idle_timeout : ℕ
  pub upload_max_bytes : ℕ
  pub download_url_expires : ℕ
  pub transcode_job_priority : ℤ
  pub s3_endpoint : Bytes
  pub s3_region : Bytes
  pub s3_bucket : Bytes
  pub s3_access_key : Bytes
  pub s3_secret_key : Bytes
  pub s3_public_base_url : Bytes
  pub kafka_brokers : Bytes
  pub kafka_transcode_topic : Bytes
  pub kafka_write_timeout : ℕ
  pub kafka_read_timeout : ℕ
  pub postgres_host : Bytes
  pub postgres_port : ℤ
  pub postgres_user : Bytes
  pub postgres_password : Bytes
  pub postgres_db : Bytes
  pub postgres_ssl_mode : Bytes

-- What is used of package net/url: parse a URL, replace its path by a function of it, and print it.
pub record UrlPackage : Type 0 where
  pub map_path : (Bytes → Bytes) → Bytes → Result Bytes

-- `BuildPublicObjectURL`
unfoldable pub build_public_object_url : UrlPackage → Config → Bytes → Result Bytes
build_public_object_url urls c object_key =
    if bytes_eq c.s3_public_base_url []
    then ok []
    else urls.map_path (λ base. path_join (base ∷ object_key ∷ [])) c.s3_public_base_url

-- `DatabaseURL`
unfoldable pub database_url : Config → Bytes
unfolding url_string decimal_int encode_value
database_url c = url_string (record {
  scheme = codes "postgres";
  username = c.postgres_user;
  password = c.postgres_password;
  host = c.postgres_host ++ (b':' ∷ decimal_int c.postgres_port);
  path = c.postgres_db;
  raw_query = encode_value (codes "sslmode") c.postgres_ssl_mode;
})
