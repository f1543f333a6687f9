-- ===== src/Config/Environment.antt =====
-- core-api/server/config.go: the settings that `NewConfig` reads from the environment. The reading
-- of one tagged field is done by the package env, which is not part of the repository.
use audio_streaming_service.Common.{
  ℕ, Bool, true, false, Option, none, some, Bytes, codes, Result, ok, ℤ, ◌>>=◌,
}
use audio_streaming_service.Config.{Config}

abbrev pub Environment : Type 0
Environment = Bytes → Option Bytes

-- The struct tag of a field
pub record Tag : Type 0 where
  pub name : Bytes
  pub is_required : Bool
  pub env_default : Option Bytes

abbrev pub required : Bytes → Tag
required name = record { name = name; is_required = true; env_default = none }

abbrev pub defaulted : Bytes → Bytes → Tag
defaulted name value = record { name = name; is_required = false; env_default = some value }

-- Package env: the text of a tagged field, and the values that it makes of texts
pub record EnvPackage : Type 0 where
  pub text_of : Environment → Tag → Result Bytes
  pub parse_int : Bytes → Result ℤ
  pub parse_int64 : Bytes → Result ℕ
  pub parse_duration : Bytes → Result ℕ

module _ (pkg : EnvPackage) (env : Environment) where
  abbrev pub read : Tag → Result Bytes
  read tag = pkg.text_of env tag

  abbrev pub read_int : Tag → Result ℤ
  read_int tag = read tag >>= pkg.parse_int

  abbrev pub read_int64 : Tag → Result ℕ
  read_int64 tag = read tag >>= pkg.parse_int64

  abbrev pub read_duration : Tag → Result ℕ
  read_duration tag = read tag >>= pkg.parse_duration

  -- `NewConfig`
  unfoldable pub new_config : Result Config
  new_config = do
    port ← read_int (defaulted (codes "CORE_API_PORT") (codes "8000"))
    http_read_header_timeout ←
        read_duration (defaulted (codes "CORE_API_READ_HEADER_TIMEOUT") (codes "5s"))
    http_read_timeout ← read_duration (defaulted (codes "CORE_API_READ_TIMEOUT") (codes "15s"))
    http_write_timeout ← read_duration (defaulted (codes "CORE_API_WRITE_TIMEOUT") (codes "15s"))
    http_idle_timeout ← read_duration (defaulted (codes "CORE_API_IDLE_TIMEOUT") (codes "60s"))
    upload_max_bytes ← read_int64 (defaulted (codes "CORE_API_UPLOAD_MAX_BYTES") (codes "52428800"))
    download_url_expires ←
        read_duration (defaulted (codes "CORE_API_DOWNLOAD_URL_EXPIRES") (codes "15m"))
    transcode_job_priority ←
        read_int (defaulted (codes "CORE_API_TRANSCODE_JOB_PRIORITY") (codes "1"))
    s3_endpoint ← read (required (codes "S3_ENDPOINT"))
    s3_region ← read (defaulted (codes "S3_REGION") (codes "ru-1"))
    s3_bucket ← read (required (codes "S3_BUCKET"))
    s3_access_key ← read (required (codes "S3_ACCESS_KEY"))
    s3_secret_key ← read (required (codes "S3_SECRET_KEY"))
    s3_public_base_url ← read (required (codes "S3_PUBLIC_BASE_URL"))
    kafka_brokers ← read (defaulted (codes "KAFKA_BROKERS") (codes "localhost:9094"))
    kafka_transcode_topic ←
        read (defaulted (codes "KAFKA_TRANSCODE_TOPIC") (codes "transcode-jobs"))
    kafka_write_timeout ← read_duration (defaulted (codes "KAFKA_WRITE_TIMEOUT") (codes "10s"))
    kafka_read_timeout ← read_duration (defaulted (codes "KAFKA_READ_TIMEOUT") (codes "10s"))
    postgres_host ← read (defaulted (codes "POSTGRES_HOST") (codes "localhost"))
    postgres_port ← read_int (defaulted (codes "POSTGRES_PORT") (codes "5432"))
    postgres_user ← read (required (codes "POSTGRES_USER"))
    postgres_password ← read (required (codes "POSTGRES_PASSWORD"))
    postgres_db ← read (required (codes "POSTGRES_DB"))
    postgres_ssl_mode ← read (defaulted (codes "POSTGRES_SSLMODE") (codes "disable"))
    ok (record {
      port = port;
      http_read_header_timeout = http_read_header_timeout;
      http_read_timeout = http_read_timeout;
      http_write_timeout = http_write_timeout;
      http_idle_timeout = http_idle_timeout;
      upload_max_bytes = upload_max_bytes;
      download_url_expires = download_url_expires;
      transcode_job_priority = transcode_job_priority;
      s3_endpoint = s3_endpoint;
      s3_region = s3_region;
      s3_bucket = s3_bucket;
      s3_access_key = s3_access_key;
      s3_secret_key = s3_secret_key;
      s3_public_base_url = s3_public_base_url;
      kafka_brokers = kafka_brokers;
      kafka_transcode_topic = kafka_transcode_topic;
      kafka_write_timeout = kafka_write_timeout;
      kafka_read_timeout = kafka_read_timeout;
      postgres_host = postgres_host;
      postgres_port = postgres_port;
      postgres_user = postgres_user;
      postgres_password = postgres_password;
      postgres_db = postgres_db;
      postgres_ssl_mode = postgres_ssl_mode;
    })
