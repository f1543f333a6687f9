-- ===== src/Tests/Settings.antt =====
-- An environment, a reader of settings, and the database URL of a password with reserved bytes.
use audio_streaming_service.Common.{
  inl, ℕ, ◌+◌, ◌-◌, ◌*◌, ◌≡◌, ◌≢◌, refl, ap, ◌∙◌, Bool, true, false, List, [], ◌∷◌, ◌++◌, All, map,
  Option, none, some, Bytes, codes, bytes_eq, service, Result, ok, err, arith, ◌==◌, if◌then◌else◌,
  pos,
}
use audio_streaming_service.Events.{broker_addresses}
use audio_streaming_service.Events.Brokers.{written, broker_addresses-join}
use audio_streaming_service.Std.Path.{join}
use audio_streaming_service.Config.{Config, database_url}
use audio_streaming_service.Config.DatabaseUrls.{read_database_url, read_database_url-database_url}
use audio_streaming_service.Config.Environment.{Environment, Tag, EnvPackage, new_config}
use audio_streaming_service.Config.Defaults.{new_config-defaults}
use audio_streaming_service.Config.Package.{IsEnvPackage}
use audio_streaming_service.Config.Required.{required_names, new_config-required}
use audio_streaming_service.Std.Format.{
  decimal, decimal_int, IsNumeric, decimal_int-All, read_from, read_from-decimal,
}
use audio_streaming_service.Std.Url.{should_escape}
use audio_streaming_service.Tests.Setup.{config}

abbrev pub or_default : Bool → Option Bytes → Result Bytes
or_default false (some v) = ok v
or_default _ _ = err service

abbrev pub text : Option Bytes → Tag → Result Bytes
text (some v) tag = ok v
text none tag = or_default tag.is_required tag.env_default

pub read_duration : ℕ → Bytes → Result ℕ
read_duration n [] = err service
read_duration n (c ∷ s) = elim (c == b's') [
  | true ↦ ok (n * 1000000000)
  | false ↦ elim (c == b'm') [
    | true ↦ ok (n * 60000000000)
    | false ↦ read_duration (n * 10 + (c - b'0')) s
  ]
]

abbrev pub settings_reader : EnvPackage
settings_reader = record {
  text_of = λ env tag. text (env tag.name) tag;
  parse_int = λ s. ok (pos (read_from 0 s));
  parse_int64 = λ s. ok (read_from 0 s);
  parse_duration = λ s. read_duration 0 s;
}

read_duration-step :
    (n c : ℕ) (s : Bytes)
    → IsNumeric c
    → read_duration n (c ∷ s) ≡ read_duration (n * 10 + (c - b'0')) s
unfolding read_duration
read_duration-step n c s h = ground arith

read_duration-append :
    (n : ℕ) (ds s : Bytes)
    → All IsNumeric ds
    → read_duration n (ds ++ s) ≡ read_duration (read_from n ds) s
unfolding read_from
read_duration-append n [] s _ = refl
read_duration-append n (c ∷ ds) s (h, hs) =
    read_duration-step n c (ds ++ s) h ∙ read_duration-append (n * 10 + (c - b'0')) ds s hs

decimal-All : (n : ℕ) → All IsNumeric (decimal n)
unfolding decimal_int
decimal-All n = decimal_int-All (pos n)

settings_reader-IsEnvPackage : IsEnvPackage settings_reader
unfolding read_duration
settings_reader-IsEnvPackage = record {
  set = λ env tag v there _. rw there refl;
  unset = λ env name v gone. rw gone refl;
  missing = λ env name v gone. rw gone (λ e. cc);
  int = λ n _. ap (λ k. ok (pos k)) (read_from-decimal n);
  int64 = λ n _. ap ok (read_from-decimal n);
  seconds = λ n _.
      read_duration-append 0 (decimal n) (codes "s") (decimal-All n)
      ∙ ap (λ k. ok (k * 1000000000)) (read_from-decimal n);
  minutes = λ n _.
      read_duration-append 0 (decimal n) (codes "m") (decimal-All n)
      ∙ ap (λ k. ok (k * 60000000000)) (read_from-decimal n);
}

-- Each required variable is set to its own name.
abbrev pub set_in : List Bytes → Environment
set_in [] name = none
set_in (n ∷ ns) name = if bytes_eq n name then some name else set_in ns name

abbrev pub settings : Environment
settings = set_in required_names

abbrev pub defaults : Config
defaults = record {
  port = pos 8000;
  http_read_header_timeout = 5 * 1000000000;
  http_read_timeout = 15 * 1000000000;
  http_write_timeout = 15 * 1000000000;
  http_idle_timeout = 60 * 1000000000;
  upload_max_bytes = 52428800;
  download_url_expires = 15 * 60000000000;
  transcode_job_priority = pos 1;
  s3_endpoint = codes "S3_ENDPOINT";
  s3_region = codes "ru-1";
  s3_bucket = codes "S3_BUCKET";
  s3_access_key = codes "S3_ACCESS_KEY";
  s3_secret_key = codes "S3_SECRET_KEY";
  s3_public_base_url = codes "S3_PUBLIC_BASE_URL";
  kafka_brokers = codes "localhost:9094";
  kafka_transcode_topic = codes "transcode-jobs";
  kafka_write_timeout = 10 * 1000000000;
  kafka_read_timeout = 10 * 1000000000;
  postgres_host = codes "localhost";
  postgres_port = pos 5432;
  postgres_user = codes "POSTGRES_USER";
  postgres_password = codes "POSTGRES_PASSWORD";
  postgres_db = codes "POSTGRES_DB";
  postgres_ssl_mode = codes "disable";
}

new_config-defaults_example : new_config settings_reader settings ≡ ok defaults
unfolding bytes_eq
new_config-defaults_example =
    new_config-defaults settings_reader settings_reader-IsEnvPackage settings (codes "S3_ENDPOINT")
      (codes "S3_BUCKET") (codes "S3_ACCESS_KEY") (codes "S3_SECRET_KEY")
      (codes "S3_PUBLIC_BASE_URL") (codes "POSTGRES_USER") (codes "POSTGRES_PASSWORD")
      (codes "POSTGRES_DB") refl refl refl refl refl refl refl refl
      (λ e. cc, (λ e. cc, (λ e. cc, (λ e. cc, (λ e. cc, (λ e. cc, (λ e. cc, (λ e. cc, tt))))))))
      (
        refl,
        (
          refl,
          (
            refl,
            (
              refl,
              (
                refl,
                (
                  refl,
                  (
                    refl,
                    (refl, (refl, (refl, (refl, (refl, (refl, (refl, (refl, (refl, tt))))))))),
                  ),
                ),
              ),
            ),
          ),
        ),
      )

pub settings-read : new_config settings_reader settings ≡ ok defaults
unfolding new_config bytes_eq read_duration read_from
settings-read = refl

new_config-required_example : All (λ name. settings name ≢ none) required_names
new_config-required_example =
    new_config-required settings_reader settings_reader-IsEnvPackage settings defaults settings-read

abbrev odd_config : Config
odd_config = record config { postgres_user = codes "a@b"; postgres_password = codes "p:/?#% +" }

read_database_url-database_url_example :
    read_database_url (database_url odd_config)
    ≡ some (record {
      username = some (codes "a@b");
      password = some (codes "p:/?#% +");
      address = codes "postgres" ++ (b':' ∷ decimal_int (pos 5432));
      database = some (codes "db");
      parameter = codes "sslmode";
      value = some (codes "disable");
    })
unfolding should_escape
read_database_url-database_url_example =
    read_database_url-database_url odd_config (inl (λ e. cc)) (omega arith) (omega arith)
      (omega arith) (omega arith) (refl, (refl, (refl, (refl, (refl, (refl, (refl, (refl, tt))))))))
      (λ e. cc)

-- Two brokers, with a blank behind the comma
broker_addresses-join_example :
    broker_addresses (join b',' (map written ((0, codes "kafka:9092") ∷ (1, codes "b:1") ∷ [])))
    ≡ codes "kafka:9092" ∷ codes "b:1" ∷ []
broker_addresses-join_example =
    broker_addresses-join (0, codes "kafka:9092") ((1, codes "b:1") ∷ []) (omega arith)
