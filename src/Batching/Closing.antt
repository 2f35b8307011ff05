-- ===== src/Batching/Closing.antt =====
-- Closing the batches of one queue without Redis, and closeBatch against it.
pub mod Rows
pub mod Jobs
pub mod Delivery
pub mod Unread
pub mod Conservation
pub mod SpecRounds
pub mod Rounds
mod Tests
use content_publishing_servi.Common.{
  ℕ, String, Option, none, some, List, [], ◌∷◌, ◌++◌, Bool, true, false, if◌then◌else◌, ◌≡◌, refl,
  ◌*◌, ◌+++◌,
}
use content_publishing_servi.Services.Redis.{Redis, Reply, ok}
use content_publishing_servi.Services.Codec.{Codec}
use content_publishing_servi.Services.Scheduler.{Scheduler}
use content_publishing_servi.Queues.{get_schema_id, queue_name_to_announcement}
use content_publishing_servi.Dsnp.{Announcement}
use content_publishing_servi.Batching.{
  BatchAnnouncerJob, BatchTimeout, BatchConfig, Round, Outcome, done, failed, out_of_rounds,
  redis_failed, bad_json, queue_failed, batch_lock_expire_seconds, parse_rows, BatchState,
  queue_batch, delete_locked, close_locked, close_reply, close_batch,
}
use content_publishing_servi.Batching.Metadata.{BatchMetadata, keys_of, keys_of-AreApart}
use content_publishing_servi.Batching.Scripts.{LockReply, lock_batch}
use content_publishing_servi.Batching.Spec.{
  Batch, Slots, LockView, nothing_open, still_locked, leftover, locked, refused, spec_lock,
}

-- The two batches of a queue, and the jobs that have been handed to the batch queue.
pub record QueueState : Type 0 where
  pub open_batch : Option Batch
  pub locked_batch : Option Batch
  pub jobs : List BatchAnnouncerJob

module _ (row_json : Codec Announcement) (config : BatchConfig) (queue_name : String) where
  abbrev pub job_of : Batch → List Announcement → BatchAnnouncerJob
  job_of b announcements = record {
    name = "Batch Job - " +++ b.metadata.batch_id;
    job_id = b.metadata.batch_id;
    batch_id = b.metadata.batch_id;
    schema_id = elim (queue_name_to_announcement queue_name) [
      | none ↦ none
      | some announcement_type ↦ some (get_schema_id config.environment announcement_type)
    ];
    announcements = announcements;
  }

  -- One job for a batch with rows, none for a batch without.
  pub spec_queue :
      List BatchAnnouncerJob → Bool → Batch → List Announcement → Option (List BatchAnnouncerJob)
  spec_queue jobs queued b [] = some jobs
  spec_queue jobs false b (a ∷ rest) = none
  spec_queue jobs true b (a ∷ rest) = some (jobs ++ job_of b (a ∷ rest) ∷ [])

  abbrev pub forget_locked : Bool → QueueState → QueueState
  forget_locked true s = record s { locked_batch = none }
  forget_locked false s = s

  pub spec_deliver :
      QueueState → Round → Batch → (QueueState → Outcome × QueueState) → Outcome × QueueState
  unfolding spec_queue
  spec_deliver s round b next = elim (parse_rows row_json b.rows) [
    | none ↦ (failed bad_json, s)
    | some announcements ↦ elim (spec_queue s.jobs round.queued b announcements) [
      | none ↦ (failed queue_failed, s)
      | some jobs ↦ next (forget_locked round.deleted (record s { jobs = jobs }))
    ]
  ]

  pub spec_close_view :
      LockView → QueueState → Round → (QueueState → Outcome × QueueState) → Outcome × QueueState
  unfolding spec_deliver
  spec_close_view nothing_open s round again = (done, s)
  spec_close_view still_locked s round again = (done, s)
  spec_close_view (refused e) s round again = (failed (redis_failed e), s)
  spec_close_view (leftover b) s round again = spec_deliver s round b again
  spec_close_view (locked b) s round again = spec_deliver s round b (λ s'. (done, s'))

  abbrev pub with_slots : QueueState → Slots → QueueState
  with_slots s slots = record s { open_batch = slots.open_batch; locked_batch = slots.locked_batch }

  pub spec_close : List Round → QueueState → Outcome × QueueState
  unfolding spec_close_view
  spec_close [] s = (out_of_rounds, s)
  spec_close (round ∷ rounds) s =
      let (view, slots) =
        spec_lock s.open_batch s.locked_batch round.now (batch_lock_expire_seconds * 1000) in
      spec_close_view view (with_slots s slots) round (λ s'. spec_close rounds s')
