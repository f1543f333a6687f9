-- ===== src/Events/Publisher.antt =====
-- The Kafka publisher fills the interface that the upload handler relies on.
use audio_streaming_service.Common.{
  ◌≡◌, refl, ℕ, ℤ, [], ◌∷◌, Bytes, Result, ok, err, Error, inl, inr, Result-cases,
}
use audio_streaming_service.Events.{
  Message, KafkaWriter, TranscodeJobCreated, job_created, publish_created,
  kafka_transcode_publisher,
}
use audio_streaming_service.Services.{
  Observed, Untouched, Untouched-refl, Appended, PublishOutcome, IsPublisher,
}

module _ {W : Type 0} (o : Observed W) where
  pub data WriteOutcome (m : Message) (w : W) : Result (Unit {0}) × W → Type 0 where
    failed : {e : Error} {w' : W} → Untouched o w w' → WriteOutcome m w (err e, w')
    done : {w' : W} → Appended o m w w' → WriteOutcome m w (ok tt, w')

  -- What a Kafka writer does with one message
  pub record IsWriter (writer : KafkaWriter W) : Type 0 where
    pub write : (m : Message) (w : W) → WriteOutcome m w (writer.write_messages (m ∷ []) w)

  module _ (unix_nano : W → ℕ) (marshal : TranscodeJobCreated → Result Bytes)
      (writer : KafkaWriter W) (laws : IsWriter writer) where
    -- The message is keyed by the track id, and its value is the JSON of a job with that id, the
    -- path and the priority, numbered by some reading of the clock.
    abbrev pub IsAnnouncement : Bytes → Bytes → ℤ → Message → Type 0
    IsAnnouncement track_id path priority m =
        (m.key ≡ track_id)
        × (now : ℕ) × (marshal (job_created now track_id path priority) ≡ ok m.value)

    write-PublishOutcome :
        (track_id path : Bytes) (priority : ℤ) (m : Message) (w : W)
        → IsAnnouncement track_id path priority m
        → {q : Result (Unit {0}) × W} → WriteOutcome m w q
        → PublishOutcome o IsAnnouncement track_id path priority w q
    write-PublishOutcome track_id path priority m w a (WriteOutcome.failed same) =
        PublishOutcome.failed same
    write-PublishOutcome track_id path priority m w a (WriteOutcome.done more) =
        PublishOutcome.done m a more

    pub kafka_transcode_publisher-IsPublisher :
        IsPublisher o IsAnnouncement (kafka_transcode_publisher unix_nano marshal writer)
    unfolding publish_created
    kafka_transcode_publisher-IsPublisher = record {
      publish = λ track_id path priority w.
          elim (Result-cases (marshal (job_created (unix_nano w) track_id path priority))) [
            | inl (body, e) ↦ rw e (
                write-PublishOutcome track_id path priority
                  (record { key = track_id; value = body }) w (refl, unix_nano w, e)
                  (laws.write _ w))
            | inr (x, e) ↦ rw e (PublishOutcome.failed (Untouched-refl o w))
          ];
    }
