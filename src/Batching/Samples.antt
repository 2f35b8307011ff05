-- ===== src/Batching/Samples.antt =====
-- Announcements, batches and states of one queue, on services that are plain functions.
use content_publishing_servi.Common.{ℕ, String, none, some, [], ◌∷◌, true, false, ◌≡◌, refl}
use content_publishing_servi.Services.Memory.{memory, empty_store, no_timers, memory_scheduler}
use content_publishing_servi.Queues.{dev, get_schema_id, queue_name_to_announcement}
use content_publishing_servi.Dsnp.{Announcement, create_profile}
use content_publishing_servi.Batching.{
  BatchTimeout, BatchConfig, Round, Outcome, parse_rows, BatchState, first_metadata,
  get_timeout_name, process, close_batch,
}
use content_publishing_servi.Batching.Metadata.{
  get_batch_data_key, get_batch_metadata_key, get_lock_key,
}
use content_publishing_servi.Batching.Scripts.{add_to_batch, lock_batch}
use content_publishing_servi.Batching.Spec.{Batch, stamp}
use content_publishing_servi.Batching.Closing.{QueueState}
use content_publishing_servi.Batching.Closing.Delivery.{Shows}
use content_publishing_servi.Batching.Closing.Rounds.{closing}
use content_publishing_servi.Batching.Instances.{metadata_codec, announcement_codec}

abbrev pub config : BatchConfig
config = record { environment = dev; batch_interval_seconds = 12; batch_max_count = 1 }

abbrev pub first : Announcement
first = create_profile "1" "https://example.com/1" "h1"

abbrev pub second : Announcement
second = create_profile "1" "https://example.com/2" "h2"

abbrev pub start : BatchState memory (memory_scheduler BatchTimeout)
start = record { db = empty_store; jobs = []; timers = no_timers }

abbrev pub step :
    BatchState memory (memory_scheduler BatchTimeout)
    → String
    → Announcement
    → String
    → ℕ
    → Outcome × BatchState memory (memory_scheduler BatchTimeout)
step s job_id a batch_id now =
    process memory (memory_scheduler BatchTimeout) metadata_codec announcement_codec config
      (record { now = now; queued = true; deleted = true } ∷ []) s "profileQueue" job_id a batch_id
      now

-- With a maximum of one row the first job leaves a batch open, and the second is the one that
-- closes it: the batch has two rows.
abbrev pub after_two : Outcome × BatchState memory (memory_scheduler BatchTimeout)
after_two = step (step start "a" first "b1" 1000).1 "b" second "b2" 2000

unfoldable pub opened : Unit {0}
unfolding process close_batch add_to_batch lock_batch get_batch_data_key get_batch_metadata_key
    get_lock_key metadata_codec announcement_codec create_profile parse_rows
    queue_name_to_announcement get_schema_id get_timeout_name
opened = tt

abbrev pub one_job : BatchState memory (memory_scheduler BatchTimeout)
one_job = (step start "a" first "b1" 1000).1

abbrev pub batch_of : String → ℕ → String → Announcement → Batch
batch_of batch_id now job_id a = record {
  metadata = first_metadata batch_id now;
  rows = (job_id, announcement_codec.encode a) ∷ [];
}

abbrev pub one_open : QueueState
one_open = record {
  open_batch = some (batch_of "b1" 1000 "a" first);
  locked_batch = none;
  jobs = [];
}

pub one_job-Shows :
    Shows memory
      (memory_scheduler BatchTimeout)
      metadata_codec
      announcement_codec
      config
      "profileQueue"
      one_job
      one_open
unfolding opened
one_job-Shows = record {
  slots = record { at_open = (_, refl, refl, refl); at_lock = (refl, refl) };
  jobs = refl;
}

-- The batch queue refuses the job, so the batch stays locked; then a new batch is opened.
abbrev pub refused_once : BatchState memory (memory_scheduler BatchTimeout)
refused_once =
    (closing memory (memory_scheduler BatchTimeout) metadata_codec announcement_codec config
      "profileQueue" (record { now = 2000; queued = false; deleted = true } ∷ []) one_job "b1").1

abbrev pub two_batches : BatchState memory (memory_scheduler BatchTimeout)
two_batches = (step refused_once "b" second "b2" 3000).1

abbrev pub left_over : Batch
left_over = stamp (batch_of "b1" 1000 "a" first) 2000

abbrev pub one_of_each : QueueState
one_of_each = record {
  open_batch = some (batch_of "b2" 3000 "b" second);
  locked_batch = some left_over;
  jobs = [];
}

pub two_batches-Shows :
    Shows memory
      (memory_scheduler BatchTimeout)
      metadata_codec
      announcement_codec
      config
      "profileQueue"
      two_batches
      one_of_each
unfolding opened
two_batches-Shows = record {
  slots = record { at_open = (_, refl, refl, refl); at_lock = (_, refl, refl, refl) };
  jobs = refl;
}

abbrev pub good : ℕ → Round
good now = record { now = now; queued = true; deleted = true }

abbrev pub undeleted : ℕ → Round
undeleted now = record { now = now; queued = true; deleted = false }

pub first_read :
    parse_rows announcement_codec (batch_of "b1" 1000 "a" first).rows ≡ some (first ∷ [])
unfolding opened
first_read = refl

pub second_read :
    parse_rows announcement_codec (batch_of "b2" 3000 "b" second).rows ≡ some (second ∷ [])
unfolding opened
second_read = refl
