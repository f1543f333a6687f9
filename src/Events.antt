-- ===== src/Events.antt =====
-- core-api/events/transcode_jobs.go
pub mod Brokers
pub mod Publisher
use audio_streaming_service.Common.{
  Bool, true, pos, ℕ, zero, suc, ◌+◌, ◌/◌, ◌%◌, ◌≡◌, refl, List, [], ◌∷◌, ◌++◌, map, Bytes, codes,
  Result, ok, err, Exec, ℤ, ltb, if◌then◌else◌, ◌>>=◌,
}
use audio_streaming_service.Config.{Config}
use audio_streaming_service.Lifecycle.{Hook, nothing}
use audio_streaming_service.Std.Format.{decimal}
use audio_streaming_service.Std.Path.{split}
use audio_streaming_service.Std.Strings.{trim_space}

-- `kafka.Message`
pub record Message : Type 0 where
  pub key : Bytes
  pub value : Bytes

-- `kafka.Writer`, by its one method that is used
pub record KafkaWriter (W : Type 0) : Type 0 where
  pub write_messages : List Message → Exec W (Unit {0})

-- The interface `TranscodePublisher`
pub record TranscodePublisher (W : Type 0) : Type 0 where
  pub publish_created : Bytes → Bytes → ℤ → Exec W (Unit {0})

pub record TranscodeJobCreated : Type 0 where
  pub job_id : Bytes
  pub track_id : Bytes
  pub path : Bytes
  pub priority : ℤ

-- What `NewTranscodePublisher` makes of the list of brokers
unfoldable pub broker_addresses : Bytes → List Bytes
broker_addresses brokers = map trim_space (split b',' brokers)

unfoldable pub job_created : ℕ → Bytes → Bytes → ℤ → TranscodeJobCreated
job_created now track_id path priority = record {
  job_id = codes "job-" ++ decimal now;
  track_id = track_id;
  path = path;
  priority = priority;
}

module _ {W : Type 0} (unix_nano : W → ℕ) (marshal : TranscodeJobCreated → Result Bytes)
    (writer : KafkaWriter W) where
  abbrev pub write_event : Bytes → Result Bytes → Exec W (Unit {0})
  write_event track_id (ok body) w =
      writer.write_messages (record { key = track_id; value = body } ∷ []) w
  write_event track_id (err e) w = (err e, w)

  -- `PublishCreated`: `unix_nano` reads the clock, and `marshal` is `json.Marshal`.
  unfoldable pub publish_created : Bytes → Bytes → ℤ → Exec W (Unit {0})
  publish_created track_id path priority w =
      write_event track_id (marshal (job_created (unix_nano w) track_id path priority)) w

  -- The Kafka writer as a `TranscodePublisher`
  abbrev pub kafka_transcode_publisher : TranscodePublisher W
  kafka_transcode_publisher = record { publish_created = publish_created }

-- `kafka.Writer` as it is made; the balancer, which chooses partitions, is left out.
pub record WriterOptions : Type 0 where
  pub addresses : List Bytes
  pub topic : Bytes
  pub allow_auto_topic_creation : Bool
  -- `kafka.RequireOne` is 1.
  pub required_acks : ℤ
  pub write_timeout : ℕ
  pub read_timeout : ℕ

-- Package kafka: writing through a writer, and closing it
pub record KafkaPackage (W : Type 0) : Type 0 where
  pub writer : WriterOptions → KafkaWriter W
  pub close : WriterOptions → Exec W (Unit {0})

abbrev pub writer_options : Config → WriterOptions
unfolding broker_addresses
writer_options cfg = record {
  addresses = broker_addresses cfg.kafka_brokers;
  topic = cfg.kafka_transcode_topic;
  allow_auto_topic_creation = true;
  required_acks = pos 1;
  write_timeout = cfg.kafka_write_timeout;
  read_timeout = cfg.kafka_read_timeout;
}

-- `NewTranscodePublisher`, with the hook that it appends
unfoldable pub new_transcode_publisher :
    {W : Type 0}
    → KafkaPackage W
    → (W → ℕ)
    → (TranscodeJobCreated → Result Bytes)
    → Config
    → TranscodePublisher W × Hook W
unfolding writer_options
new_transcode_publisher kafka unix_nano marshal cfg = (
  kafka_transcode_publisher unix_nano marshal (kafka.writer (writer_options cfg)),
  record { on_start = nothing; on_stop = kafka.close (writer_options cfg) },
)
