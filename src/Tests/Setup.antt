-- ===== src/Tests/Setup.antt =====
-- A broker, the packages, a configuration and a handler over the world in memory.
use audio_streaming_service.Common.{
  ℕ, refl, ◌++◌, some, Bytes, codes, bytes_eq, service, Result, ok, err, pos, if◌then◌else◌,
}
use audio_streaming_service.Config.{Config}
use audio_streaming_service.Events.{KafkaWriter, TranscodeJobCreated, kafka_transcode_publisher}
use audio_streaming_service.Handlers.{Packages}
use audio_streaming_service.Handlers.Upload.{UploadHandler}
use audio_streaming_service.Events.Publisher.{IsWriter, WriteOutcome}
use audio_streaming_service.Repository.Tables.{valid_uuid}
use audio_streaming_service.Services.{Untouched-refl, RandOutcome}
use audio_streaming_service.Storage.{S3Storage}
use audio_streaming_service.Tests.Memory.{
  World, observed, memory_client, memory_db, random_bytes, length-random_bytes, All-random_bytes,
}

abbrev pub memory_writer : KafkaWriter World
memory_writer = record { write_messages = λ ms w. (ok tt, record w { topic = w.topic ++ ms }) }

pub memory_writer-IsWriter : IsWriter observed memory_writer
memory_writer-IsWriter = record {
  write = λ m w.
      WriteOutcome.done
        (record { tracks = refl; objects = record { at = λ b k. refl }; jobs = refl });
}

-- A broker that cannot be reached
abbrev pub lost_writer : KafkaWriter World
lost_writer = record { write_messages = λ ms w. (err service, w) }

pub lost_writer-IsWriter : IsWriter observed lost_writer
lost_writer-IsWriter = record { write = λ m w. WriteOutcome.failed (Untouched-refl observed w) }

-- No clock is read: the id of a job is the time 7.
abbrev pub clock : World → ℕ
clock w = w.now

-- The key of a job in place of its JSON
abbrev pub marshal : TranscodeJobCreated → Result Bytes
marshal job = ok (job.job_id ++ job.path)

abbrev pub packages : (Bytes → Result Bytes) → Packages World
packages url = record {
  urls = record { map_path = λ f base. url (f base) };
  uuid_string = λ id. id.bytes;
  uuid_scan = λ raw. if bytes_eq raw (codes "?") then err service else ok (valid_uuid raw);
  format_rfc3339 = λ t. codes "2026-01-01T00:00:00Z";
  rand_read = λ n w. (ok (random_bytes n), w);
}

pub packages-RandOutcome :
    (url : Bytes → Result Bytes) (n : ℕ) (w : World)
    → RandOutcome observed n w ((packages url).rand_read n w)
packages-RandOutcome url n w =
    RandOutcome.done (random_bytes n) (length-random_bytes n) (All-random_bytes n)
      (Untouched-refl observed w)

abbrev pub config : Config
config = record {
  port = pos 8080;
  http_read_header_timeout = 5;
  http_read_timeout = 300;
  http_write_timeout = 300;
  http_idle_timeout = 60;
  upload_max_bytes = 104857600;
  download_url_expires = 900;
  transcode_job_priority = pos 1;
  s3_endpoint = codes "http://minio:9000";
  s3_region = codes "us-east-1";
  s3_bucket = codes "tracks";
  s3_access_key = codes "a";
  s3_secret_key = codes "b";
  s3_public_base_url = codes "/public";
  kafka_brokers = codes "kafka:9092";
  kafka_transcode_topic = codes "jobs";
  kafka_write_timeout = 10;
  kafka_read_timeout = 10;
  postgres_host = codes "postgres";
  postgres_port = pos 5432;
  postgres_user = codes "u";
  postgres_password = codes "p";
  postgres_db = codes "db";
  postgres_ssl_mode = codes "disable";
}

abbrev pub memory_storage : S3Storage World
memory_storage = record { bucket = codes "tracks"; client = memory_client; cfg = some config }

abbrev pub handler_with : KafkaWriter World → UploadHandler World
handler_with writer = record {
  queries = memory_db;
  tracks = memory_storage;
  jobs = kafka_transcode_publisher clock marshal writer;
  cfg = config;
}
