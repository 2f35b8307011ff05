-- ===== src/Batching/Setup.antt =====
-- The timeouts that are set up when a worker starts: setupActiveBatchTimeout of
-- apps/worker/src/batching_processor/batching.processor.service.ts.
use content_publishing_servi.Common.{
  ℕ, ◌+◌, ◌-◌, ◌*◌, String, Option, none, some, List, leb, ◌==ₛ◌, if◌then◌else◌,
}
use content_publishing_servi.Services.Redis.{Redis, Entry, missing, string, hash, RedisError}
use content_publishing_servi.Services.Codec.{Codec}
use content_publishing_servi.Services.Scheduler.{Scheduler}
use content_publishing_servi.Dsnp.{Announcement}
use content_publishing_servi.Batching.{
  BatchTimeout, BatchConfig, Round, Outcome, done, failed, bad_json, redis_failed, BatchState,
  milliseconds_per_second, add_batch_timeout, close_batch,
}
use content_publishing_servi.Batching.Metadata.{BatchMetadata, get_batch_metadata_key}

module _ (redis : Redis) (scheduler : Scheduler BatchTimeout) (metadata_json : Codec BatchMetadata)
    (row_json : Codec Announcement) (config : BatchConfig) where
  -- setupActiveBatchTimeout once the queue's metadata is read: openTimeMs is now - startTimestamp,
  -- which may be negative, and remainingTimeMs is batchTimeoutInMs - openTimeMs.
  unfoldable pub setup_open_batch :
      List Round
      → BatchState redis scheduler
      → String
      → BatchMetadata
      → ℕ
      → Outcome × BatchState redis scheduler
  unfolding close_batch add_batch_timeout
  setup_open_batch rounds s queue_name metadata now =
      let batch_timeout_in_ms = config.batch_interval_seconds * milliseconds_per_second in
      let closed =
        close_batch redis scheduler metadata_json row_json config rounds s queue_name
          metadata.batch_id in
      if leb (metadata.start_timestamp + batch_timeout_in_ms) now then closed else (
        done,
        add_batch_timeout redis scheduler s queue_name metadata.batch_id
            (metadata.start_timestamp + batch_timeout_in_ms - now),
      )

  -- setupActiveBatchTimeout once JSON.parse has its answer
  unfoldable pub setup_metadata :
      List Round
      → BatchState redis scheduler
      → String
      → ℕ
      → Option BatchMetadata
      → Outcome × BatchState redis scheduler
  unfolding setup_open_batch
  setup_metadata rounds s queue_name now none = (failed bad_json, s)
  setup_metadata rounds s queue_name now (some metadata) =
      setup_open_batch rounds s queue_name metadata now

  -- setupActiveBatchTimeout at what is stored at the key of the metadata
  unfoldable pub setup_entry :
      List Round
      → BatchState redis scheduler
      → String
      → ℕ
      → Entry
      → Outcome × BatchState redis scheduler
  unfolding setup_metadata
  setup_entry rounds s queue_name now missing = (done, s)
  setup_entry rounds s queue_name now (hash rows) = (failed (redis_failed RedisError.wrong_type), s)
  setup_entry rounds s queue_name now (string raw) =
      if raw ==ₛ ""
      then (done, s)
      else setup_metadata rounds s queue_name now (metadata_json.decode raw)

  unfoldable pub setup_active_batch_timeout :
      List Round → BatchState redis scheduler → String → ℕ → Outcome × BatchState redis scheduler
  unfolding setup_entry
  setup_active_batch_timeout rounds s queue_name now =
      setup_entry rounds s queue_name now (redis.view s.db (get_batch_metadata_key queue_name))
