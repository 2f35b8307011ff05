-- ===== src/Publisher.antt =====
-- PublishingService of apps/worker/src/publisher/publishing.service.ts.
pub mod Submitting
pub mod Limits
pub mod Pausing
pub mod Lifecycle
pub mod Receipts
mod Tests
use text.Mathlib.Text.{find?}
use content_publishing_servi.Common.{
  ℕ, zero, suc, ◌+◌, ◌-◌, ◌*◌, ◌/◌, String, ◌+++◌, Option, none, some, List, [], ◌∷◌, Bool, true,
  false, ◌==ₛ◌, ◌||◌, leb, if◌then◌else◌, is_some, show, or_else, ◌>>=◌,
}
use content_publishing_servi.Services.Redis.{Redis}
use content_publishing_servi.Services.Scheduler.{Scheduler}
use content_publishing_servi.Blockchain.Capacity.{CapacityQueries, CapacityInfo, capacity_info}
use content_publishing_servi.Nonce.{get_next_nonce}
use content_publishing_servi.Monitor.{
  PublisherJob, TxMonitorJob, seconds_per_block, milliseconds_per_second, saved_capacity,
  epoch_capacity_key,
}
use Submitting.{Answer, answered, rejected, Submitter, publish}

pub data CapacityLimit : Type 0 where
  percentage : ℕ → CapacityLimit
  amount : ℕ → CapacityLimit

-- The job that the receipt queue gets, with its options
pub record ReceiptRequest : Type 0 where
  pub name : String
  pub job : TxMonitorJob
  pub job_id : String
  pub delay : ℕ
  pub attempts : ℕ
  pub backoff_delay : ℕ

pub data Outcome : Type 0 where
  succeeded : Outcome
  failed : Outcome

-- A percentage's threshold is rounded down.
unfoldable pub limit_of : CapacityInfo → CapacityLimit → ℕ
limit_of capacity (percentage value) = capacity.total_capacity_issued * value / 100
limit_of capacity (amount value) = value

unfoldable pub out_of_capacity : CapacityInfo → ℕ → CapacityLimit → Bool
unfolding limit_of
out_of_capacity capacity epoch_used_capacity limit =
    leb capacity.remaining_capacity 0 || leb (limit_of capacity limit) epoch_used_capacity

-- e.message.includes('Inability to pay some fees')
unfoldable pub is_fee_error : String → Bool
is_fee_error message = is_some (find? message "Inability to pay some fees")

unfoldable pub receipt_request : PublisherJob → String → String → ReceiptRequest
receipt_request job_data tx_hash last_finalized_block_hash = record {
  name = "Receipt Job - " +++ tx_hash;
  job = record {
    id = tx_hash;
    tx_hash = tx_hash;
    last_finalized_block_hash = last_finalized_block_hash;
    reference_publish_job = job_data;
  };
  job_id = tx_hash;
  delay = 1 * seconds_per_block * milliseconds_per_second;
  attempts = 4;
  backoff_delay = 3 * seconds_per_block * milliseconds_per_second;
}

-- CAPACITY_EPOCH_TIMEOUT_NAME
abbrev pub capacity_epoch_timeout_name : String
capacity_epoch_timeout_name = "capacity-epoch-timeout"

-- The service's state: its Redis, its flag, whether the publish queue is paused, the registry of
-- timeouts with their delays, the timeouts that run without being registered, what the receipt
-- queue got, and the handlers of capacity.exhausted that nobody awaits and that have come as far as
-- their first await.
pub record PublisherState (Db Timers : Type 0) : Type 0 where
  pub db : Db
  pub capacity_exhausted : Bool
  pub paused : Bool
  pub timers : Timers
  pub unregistered : List ℕ
  pub receipts : List ReceiptRequest
  pub unfinished : ℕ

module _ (redis : Redis) (scheduler : Scheduler ℕ) where
  abbrev pub State : Type 0
  State = PublisherState redis.Db scheduler.Timers

  -- handleCapacityExhausted up to the pause of the queue
  unfoldable pub begin_exhausted : State → State
  begin_exhausted st = record st { capacity_exhausted = true; paused = true }

  -- addTimeout(…, setTimeout(…)): the timeout runs even if the name is taken
  unfoldable pub add_epoch_timeout : State → ℕ → Option ℕ → State
  add_epoch_timeout st delay (some other) = record st { unregistered = delay ∷ st.unregistered }
  add_epoch_timeout st delay none = record st {
    timers = scheduler.add_timeout st.timers capacity_epoch_timeout_name delay;
  }

  -- The rest of handleCapacityExhausted; false if capacityInfo is rejected. A negative delay runs
  -- at once, as 0 does.
  unfoldable pub end_exhausted : State → Option CapacityInfo → State × Bool
  unfolding add_epoch_timeout
  end_exhausted st none = (st, false)
  end_exhausted st (some capacity) = (
    add_epoch_timeout st
        ((capacity.next_epoch_start - capacity.current_block_number)
          * seconds_per_block
          * milliseconds_per_second)
        (scheduler.find st.timers capacity_epoch_timeout_name),
    true,
  )

  unfoldable pub delete_epoch_timeout : State → Option ℕ → State
  delete_epoch_timeout st none = st
  delete_epoch_timeout st (some delay) = record st {
    timers = scheduler.delete_timeout st.timers capacity_epoch_timeout_name;
  }

  unfoldable pub handle_capacity_refilled : State → State
  unfolding delete_epoch_timeout
  handle_capacity_refilled st =
      delete_epoch_timeout (record st { capacity_exhausted = false })
        (scheduler.find st.timers capacity_epoch_timeout_name)

  -- The test of checkCapacity; none if a call is rejected
  unfoldable pub capacity_test : redis.Db → CapacityLimit → Option CapacityInfo → Option Bool
  unfolding out_of_capacity saved_capacity
  capacity_test db limit info = do
    capacity ← info
    epoch_used_capacity ← saved_capacity (redis.view db (epoch_capacity_key capacity.current_epoch))
    some (out_of_capacity capacity epoch_used_capacity limit)

  -- The event that is emitted and awaited
  unfoldable pub emit_capacity : State → Option CapacityInfo → Option Bool → State × Bool
  unfolding begin_exhausted end_exhausted handle_capacity_refilled
  emit_capacity st later none = (st, false)
  emit_capacity st later (some true) = end_exhausted (begin_exhausted st) later
  emit_capacity st later (some false) = (handle_capacity_refilled st, true)

  -- checkCapacity: `now` is what capacityInfo gives in it, `later` in the handler of the event.
  unfoldable pub check_capacity :
      CapacityLimit → State → Option CapacityInfo → Option CapacityInfo → State × Bool
  unfolding capacity_test emit_capacity
  check_capacity limit st now later = emit_capacity st later (capacity_test st.db limit now)

  -- The catch block. The handler of the event that it emits has paused the queue by the time that
  -- checkCapacity gets its first answer.
  unfoldable pub handle_failure : State → String → State
  unfolding is_fee_error begin_exhausted
  handle_failure st message =
      if is_fee_error message
      then record (begin_exhausted st) { unfinished = st.unfinished + 1 }
      else st

  module _ (submitter : Submitter) where
    -- sendJobToTxReceiptQueue; the queue takes the job, or refuses it with a message
    unfoldable pub send_job_to_tx_receipt_queue :
        State → PublisherJob → String → String → Option String → State × Outcome
    unfolding receipt_request handle_failure
    send_job_to_tx_receipt_queue st job tx_hash block_hash none =
        (record st { receipts = receipt_request job tx_hash block_hash ∷ st.receipts }, succeeded)
    send_job_to_tx_receipt_queue st job tx_hash block_hash (some message) =
        (handle_failure st message, failed)

    unfoldable pub sent :
        State → PublisherJob → String → Option String → Answer String × redis.Db → State × Outcome
    unfolding send_job_to_tx_receipt_queue handle_failure
    sent st job block_hash refusal (answered tx_hash, db) =
        send_job_to_tx_receipt_queue (record st { db = db }) job tx_hash block_hash refusal
    sent st job block_hash refusal (rejected message, db) =
        (handle_failure (record st { db = db }) message, failed)

    -- The try and catch blocks
    unfoldable pub try_publish :
        State → PublisherJob → Option String → Answer String → State × Outcome
    unfolding publish sent handle_failure
    try_publish st job refusal (rejected message) = (handle_failure st message, failed)
    try_publish st job refusal (answered block_hash) =
        sent st job block_hash refusal (publish redis submitter st.db job)

    -- What the finally block adds: if checkCapacity throws, so does process.
    abbrev pub finally_outcome : Outcome → Bool → Outcome
    finally_outcome outcome true = outcome
    finally_outcome outcome false = failed

    unfoldable pub process :
        CapacityLimit
        → State
        → PublisherJob
        → Option String
        → Option CapacityInfo
        → Option CapacityInfo
        → State × Outcome
    unfolding try_publish check_capacity
    process limit st job refusal now later =
        let (st', outcome) = try_publish st job refusal submitter.latest_finalized_block_hash in
        let (st'', checked) = check_capacity limit st' now later in
        (st'', finally_outcome outcome checked)
