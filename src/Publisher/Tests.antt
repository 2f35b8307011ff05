-- ===== src/Publisher/Tests.antt =====
-- The publisher on services that are plain functions.
use content_publishing_servi.Common.{
  ℕ, none, some, [], ◌∷◌, true, false, ◌≡◌, ◌≢◌, ◌||◌, refl, leb, ltb, ◌*◌, ◌+◌, show,
}
use content_publishing_servi.Services.Memory.{memory, empty_store, no_timers, memory_scheduler}
use content_publishing_servi.Services.Scheduler.{Scheduler}
use content_publishing_servi.Blockchain.Capacity.{CapacityInfo}
use content_publishing_servi.Monitor.{PublisherJob}
use content_publishing_servi.Nonce.{get_next_nonce, get_next_possible_keys, get_nonce_key}
use content_publishing_servi.Publisher.{
  percentage, State, process, check_capacity, capacity_test, out_of_capacity, receipt_request,
}
use content_publishing_servi.Publisher.Submitting.{Submitter, answered}
use content_publishing_servi.Publisher.Limits.{out_of_capacity-percentage}
use content_publishing_servi.Publisher.Pausing.{
  has_timeout, IsPaused, Step, Steps, check_capacity_lem, Steps-IsPaused,
}
use content_publishing_servi.Consumer.{closes}
use content_publishing_servi.Publisher.{capacity_epoch_timeout_name, end_exhausted}
use content_publishing_servi.Publisher.Lifecycle.{destroy_publisher}

abbrev timeouts : Scheduler ℕ
timeouts = memory_scheduler ℕ

abbrev job : PublisherJob
job = record { id = "b1"; schema_id = 2; job_data = record { cid = "c"; payload_length = 9 } }

abbrev submitter : Submitter
submitter = record {
  Extrinsic = PublisherJob;
  latest_finalized_block_hash = answered "h";
  create_extrinsic = λ j. answered j;
  nonce = answered 7;
  sign_and_send = λ ext nonce. answered (some "t");
}

abbrev capacity : CapacityInfo
capacity = record {
  provider_id = "1";
  current_block_number = 10;
  next_epoch_start = 15;
  remaining_capacity = 50;
  total_capacity_issued = 250;
  current_epoch = 3;
}

abbrev spent : CapacityInfo
spent = record capacity { remaining_capacity = 0 }

abbrev start : State memory timeouts
start = record {
  db = empty_store;
  capacity_exhausted = false;
  paused = false;
  timers = no_timers;
  unregistered = [];
  receipts = [];
  unfinished = 0;
}

abbrev paused_state : State memory timeouts
paused_state = record start { paused = true; capacity_exhausted = true }

sends :
    (process memory timeouts submitter
      (percentage 80)
      start
      job
      none
      (some capacity)
      none).0.receipts
    ≡ receipt_request job "t" "h" ∷ []
unfolding process get_next_nonce get_next_possible_keys get_nonce_key show
sends = refl

out_of_capacity-percentage_example :
    out_of_capacity capacity 199 (percentage 80) ≡ (leb 50 0 || ltb (250 * 80) ((199 + 1) * 100))
out_of_capacity-percentage_example = out_of_capacity-percentage capacity 199 80

is_spent : capacity_test memory timeouts empty_store (percentage 80) (some spent) ≡ some true
unfolding capacity_test
is_spent = refl

check_capacity_lem_example :
    let (st', done) =
      check_capacity memory timeouts (percentage 80) start (some spent) (some spent) in
    (done ≡ true)
    × (st'.capacity_exhausted ≡ true)
    × (has_timeout memory timeouts st' ≡ true)
    × (st'.paused ≡ (true || false))
check_capacity_lem_example =
    check_capacity_lem memory timeouts (percentage 80) start (some spent) spent true is_spent

-- A refill clears the flag and leaves the queue paused.
abbrev refilled : State memory timeouts
refilled = (check_capacity memory timeouts (percentage 80) paused_state (some capacity) none).0

flag_is_cleared : refilled.capacity_exhausted ≡ false
unfolding check_capacity
flag_is_cleared = refl

abbrev one_check : Steps memory timeouts paused_state refilled
one_check =
    Steps.more paused_state refilled refilled
      (Step.checked (percentage 80) paused_state (some capacity) none) (Steps.done refilled)

Steps-IsPaused_example : IsPaused memory timeouts refilled
Steps-IsPaused_example = Steps-IsPaused memory timeouts paused_state refilled one_check refl

abbrev timed_state : State memory timeouts
timed_state = record start {
  timers = timeouts.add_timeout no_timers "capacity-epoch-timeout" 60000;
}

-- Nothing but the jobs' ends happens meanwhile.
abbrev quiet : State memory timeouts → State memory timeouts
quiet st = st

-- A handler that is not through by the time of the deletion registers the timeout again.
abbrev late_handler : State memory timeouts → State memory timeouts
late_handler st = (end_exhausted memory timeouts st (some capacity)).0

timeout_returns :
    (destroy_publisher memory timeouts late_handler timed_state (closes 20 []) [] []).0.timers
      capacity_epoch_timeout_name
    ≢ none
unfolding destroy_publisher end_exhausted
timeout_returns = λ e. cc e
