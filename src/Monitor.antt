-- ===== src/Monitor.antt =====
-- TxStatusMonitoringService of apps/worker/src/monitor/tx.status.monitor.service.ts.
use content_publishing_servi.Common.{
  ◌>>=◌, ℕ, zero, suc, ◌+◌, ◌*◌, String, ◌+++◌, Option, none, some, List, [], ◌∷◌, ◌++◌, Bool, true,
  false, ◌==ₛ◌, ◌==◌, ltb, leb, not, ◌&&◌, ◌||◌, if◌then◌else◌, show, big_int, or_else,
}
use content_publishing_servi.Services.Redis.{Entry, missing, string, hash, Redis}
use content_publishing_servi.Blockchain.Crawl.{
  RegistryError, Chain, Receipt, crawl_block_list_for_tx,
}
pub mod Window
pub mod Capacity
pub mod Outcomes
mod Tests

pub record IpfsJobData : Type 0 where
  pub cid : String
  pub payload_length : ℕ

pub record PublisherJob : Type 0 where
  pub id : String
  pub schema_id : ℕ
  pub job_data : IpfsJobData

pub record TxMonitorJob : Type 0 where
  pub id : String
  pub tx_hash : String
  pub last_finalized_block_hash : String
  pub reference_publish_job : PublisherJob

-- A job of the receipt queue with its attempts
pub record ReceiptJob : Type 0 where
  pub job_data : TxMonitorJob
  pub attempts_made : ℕ
  pub attempts : Option ℕ

-- The node; a call that is rejected is none.
pub record Node : Type 0 where
  pub chain : Chain
  pub block_number : String → Option ℕ
  pub latest_finalized_block_number : Option ℕ
  pub current_epoch_length : Option ℕ

-- What the publish queue answers: whether a removal, an addition and a pause succeed
pub record PublishQueue : Type 0 where
  pub can_remove : String → Bool
  pub can_add : PublisherJob → Bool
  pub can_pause : Bool

-- The calls of the publish queue
pub data Call : Type 0 where
  remove : String → Call
  add : String → PublisherJob → String → Call
  pause : Call

-- How a run ends: it returns the receipt, or throws an error that is retried or one that is not.
pub data Outcome : Type 0 where
  returned : Receipt → Outcome
  thrown : Outcome
  unrecoverable : Outcome

pub record ErrorReport : Type 0 where
  pub pauses : Bool
  pub retries : Bool

abbrev pub number_blocks_to_crawl : ℕ
number_blocks_to_crawl = 32

abbrev pub seconds_per_block : ℕ
seconds_per_block = 12

abbrev pub milliseconds_per_second : ℕ
milliseconds_per_second = 1000

-- The loop that pushes the block numbers; the fuel counts its rounds.
unfoldable pub push_blocks : ℕ → ℕ → ℕ → ℕ → List ℕ
push_blocks zero i current limit = []
push_blocks (suc fuel) i current limit =
    let rest = push_blocks fuel (i + 1) current limit in
    if leb i current && ltb i limit then i ∷ rest else []

unfoldable pub block_list : ℕ → ℕ → List ℕ
unfolding push_blocks
block_list previous current =
    push_blocks (number_blocks_to_crawl + 1) previous current (previous + number_blocks_to_crawl)

-- The switch's labels
unfoldable pub is_retried : String → Bool
is_retried method = method ==ₛ "TooManyMessagesInBlock"

unfoldable pub is_known : String → Bool
is_known method =
    method ==ₛ "UnAuthorizedDelegate"
    || method ==ₛ "InvalidMessageSourceAccount"
    || method ==ₛ "InvalidSchemaId"
    || method ==ₛ "ExceedsMaxMessagePayloadSizeBytes"
    || method ==ₛ "InvalidPayloadLocation"
    || method ==ₛ "UnsupportedCid"
    || method ==ₛ "InvalidCid"

unfoldable pub handle_messages_failure : RegistryError → ErrorReport
unfolding is_retried is_known
handle_messages_failure module_error =
    if is_retried module_error.method
    then record { pauses = false; retries = true }
    else if is_known module_error.method
    then record { pauses = false; retries = false }
    else record { pauses = false; retries = false }

abbrev pub epoch_capacity_key : ℕ → String
epoch_capacity_key epoch = "epochCapacity:" +++ show epoch

-- BigInt(… ?? 0) of what GET answers; a hash there is refused
unfoldable pub saved_capacity : Entry → Option ℕ
unfolding big_int
saved_capacity missing = some 0
saved_capacity (string v) = big_int v
saved_capacity (hash rows) = none

module _ (redis : Redis) where
  -- The try block's body; none if it throws. Redis refuses an expiry of 0.
  unfoldable pub try_set_epoch_capacity : redis.Db → Option ℕ → ℕ → ℕ → Option redis.Db
  unfolding saved_capacity
  try_set_epoch_capacity db epoch_length epoch capacity_withdrawn = do
    epoch_capacity ← saved_capacity (redis.view db (epoch_capacity_key epoch))
    let new_epoch_capacity = epoch_capacity + capacity_withdrawn
    epoch_duration_blocks ← epoch_length
    let epoch_duration = epoch_duration_blocks * seconds_per_block * milliseconds_per_second
    if epoch_duration == 0
        then none
        else some
            (redis.setex db (epoch_capacity_key epoch) epoch_duration (show new_epoch_capacity))

  unfoldable pub set_epoch_capacity : redis.Db → Option ℕ → ℕ → ℕ → redis.Db
  unfolding try_set_epoch_capacity
  set_epoch_capacity db epoch_length epoch capacity_withdrawn =
      or_else (try_set_epoch_capacity db epoch_length epoch capacity_withdrawn) db

-- What a run leaves: the store, the calls that the publish queue got in their order, and its end
pub record Run (Db : Type 0) : Type 0 where
  pub db : Db
  pub calls : List Call
  pub outcome : Outcome

-- The calls that retryPublishJob makes, and whether they all succeeded
unfoldable pub retry_publish_job : PublishQueue → PublisherJob → List Call × Bool
retry_publish_job queue publish_job =
    if queue.can_remove publish_job.id
    then (
      remove publish_job.id
          ∷ add ("Retrying publish job - " +++ publish_job.id) publish_job publish_job.id
          ∷ [],
      queue.can_add publish_job,
    )
    else (remove publish_job.id ∷ [], false)

-- What follows a call of retryPublishJob
unfoldable pub after_retry : {Db : Type 0} → Db → List Call → List Call × Bool → Receipt → Run Db
after_retry db before (calls, succeeded) r = record {
  db = db;
  calls = before ++ calls;
  outcome = if succeeded then returned r else thrown;
}

-- The branch of a transaction that is in no listed block
unfoldable pub process_missing : {Db : Type 0} → PublishQueue → Db → ReceiptJob → Receipt → Run Db
unfolding retry_publish_job after_retry
process_missing queue db job r =
    if ltb job.attempts_made (or_else job.attempts 3)
    then record { db = db; calls = []; outcome = thrown }
    else after_retry db [] (retry_publish_job queue job.job_data.reference_publish_job) r

-- The handling of an error report
unfoldable pub process_report :
    {Db : Type 0} → PublishQueue → Db → ReceiptJob → Receipt → ErrorReport → Run Db
unfolding retry_publish_job after_retry
process_report queue db job r report =
    let calls = if report.pauses then pause ∷ [] else [] in
    if report.pauses && not queue.can_pause
    then record { db = db; calls = calls; outcome = thrown }
    else if report.retries
    then after_retry db calls (retry_publish_job queue job.job_data.reference_publish_job) r
    else record { db = db; calls = calls; outcome = unrecoverable }

-- `if (txResult.error)`
unfoldable pub process_error :
    {Db : Type 0} → PublishQueue → Db → ReceiptJob → Receipt → Option RegistryError → Run Db
unfolding process_report handle_messages_failure
process_error queue db job r none = record { db = db; calls = []; outcome = returned r }
process_error queue db job r (some error) =
    process_report queue db job r (handle_messages_failure error)

-- The success event that the monitor looks for
abbrev pub success_events : List (String × String)
success_events = ("system", "ExtrinsicSuccess") ∷ []

-- The receipt that the crawl of the blocks gives; none if a call is rejected
unfoldable pub find_receipt : Node → ReceiptJob → Option Receipt
unfolding block_list crawl_block_list_for_tx
find_receipt node job = do
  previous ← node.block_number job.job_data.last_finalized_block_hash
  current ← node.latest_finalized_block_number
  crawl_block_list_for_tx node.chain job.job_data.tx_hash (block_list previous current)
      success_events

module _ (redis : Redis) where
  unfoldable pub process_receipt :
      PublishQueue → Option ℕ → redis.Db → ReceiptJob → Receipt → Run redis.Db
  unfolding process_missing process_error set_epoch_capacity
  process_receipt queue epoch_length db job r =
      if r.found
      then process_error queue
          (set_epoch_capacity redis db epoch_length (or_else r.capacity_epoch 0)
            (or_else r.capacity_withdrawn 0))
          job r r.error
      else process_missing queue db job r

  -- What is done once the crawl has answered; a rejection is thrown again
  unfoldable pub process_answer :
      PublishQueue → Option ℕ → redis.Db → ReceiptJob → Option Receipt → Run redis.Db
  unfolding process_receipt
  process_answer queue epoch_length db job none = record { db = db; calls = []; outcome = thrown }
  process_answer queue epoch_length db job (some r) = process_receipt queue epoch_length db job r

  unfoldable pub process : PublishQueue → Node → redis.Db → ReceiptJob → Run redis.Db
  unfolding find_receipt process_answer
  process queue node db job =
      process_answer queue node.current_epoch_length db job (find_receipt node job)
