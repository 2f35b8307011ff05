-- ===== src/Publisher/Receipts.antt =====
-- What PublishingService.process of apps/worker/src/publisher/publishing.service.ts sends to the
-- receipt queue.
use content_publishing_servi.Common.{◌+++◌, ℕ, Option, none, String, List, ◌∷◌, ◌≡◌, ◌⊎◌}
use content_publishing_servi.Services.Redis.{Redis}
use content_publishing_servi.Services.Scheduler.{Scheduler}
use content_publishing_servi.Monitor.{PublisherJob}
use content_publishing_servi.Publisher.{State, ReceiptRequest, Outcome, failed}
use content_publishing_servi.Publisher.Submitting.{Submitter, answered, publish}

module _ (redis : Redis) (scheduler : Scheduler ℕ) where
  module _ (submitter : Submitter) (job : PublisherJob) (refusal : Option String) where
    -- The job that watches a transaction from a block on: a delay of one block, 4 attempts, and three
    -- blocks between them
    abbrev watching : String → String → ReceiptRequest
    watching tx_hash block_hash = record {
      name = "Receipt Job - " +++ tx_hash;
      job = record {
        id = tx_hash;
        tx_hash = tx_hash;
        last_finalized_block_hash = block_hash;
        reference_publish_job = job;
      };
      job_id = tx_hash;
      delay = 12000;
      attempts = 4;
      backoff_delay = 36000;
    }

    -- The transaction was sent after the block hash had been read, and the queue took its job.
    abbrev pub IsRequested : redis.Db → List ReceiptRequest → List ReceiptRequest → Type 0
    IsRequested db before after =
        (block_hash : String) × (tx_hash : String) × (submitter.latest_finalized_block_hash
          ≡ answered block_hash)
        × ((publish redis submitter db job).0 ≡ answered tx_hash)
        × (refusal ≡ none)
        × (after ≡ watching tx_hash block_hash ∷ before)

    abbrev Verdict : State redis scheduler → State redis scheduler → Outcome → Type 0
    Verdict st st' outcome =
        IsRequested st.db st.receipts st'.receipts
        ⊎ ((st'.receipts ≡ st.receipts) × (outcome ≡ failed))
