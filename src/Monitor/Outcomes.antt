-- ===== src/Monitor/Outcomes.antt =====
-- How TxStatusMonitoringService.process of
-- apps/worker/src/monitor/tx.status.monitor.service.ts ends.
use content_publishing_servi.Common.{
  ℕ, ◌<◌, ◌≤◌, ◌+++◌, ◌==ₛ◌, Option, none, some, List, [], ◌∷◌, true, false, or_else, ◌⊎◌, ◌≡◌,
}
use content_publishing_servi.Services.Redis.{Redis}
use content_publishing_servi.Blockchain.Crawl.{Receipt, RegistryError}
use content_publishing_servi.Monitor.{
  ReceiptJob, PublisherJob, PublishQueue, Call, remove, add, Outcome, returned, thrown,
  unrecoverable, Run,
}

abbrev last_attempt : ReceiptJob → ℕ
last_attempt job = or_else job.attempts 3

-- The publish job is due again: its transaction is in no listed block and the attempts are used up,
-- or the block had too many messages.
abbrev IsDue : ReceiptJob → Receipt → Type 0
IsDue job r =
    (r.found ≡ false × last_attempt job ≤ job.attempts_made)
    ⊎ (r.found ≡ true
        × ((error : RegistryError) × (r.error ≡ some error)
            × ((error.method ==ₛ "TooManyMessagesInBlock") ≡ true)))

abbrev addition : PublisherJob → Call
addition job = add ("Retrying publish job - " +++ job.id) job job.id

-- The ways a run can end, from what the crawl answers: the calls it makes and its outcome
pub data Ends (queue : PublishQueue) (job : ReceiptJob)
    : Option Receipt → List Call → Outcome → Type 0 where
  rejected : Ends queue job none [] thrown
  waiting :
      (r : Receipt)
      → r.found ≡ false
      → job.attempts_made < last_attempt job
      → Ends queue job (some r) [] thrown
  republished :
      (r : Receipt)
      → IsDue job r
      → Ends queue job
          (some r)
          (remove job.job_data.reference_publish_job.id
            ∷ addition job.job_data.reference_publish_job
            ∷ [])
          (returned r)
  removal_failed :
      (r : Receipt)
      → IsDue job r
      → queue.can_remove job.job_data.reference_publish_job.id ≡ false
      → Ends queue job (some r) (remove job.job_data.reference_publish_job.id ∷ []) thrown
  addition_failed :
      (r : Receipt)
      → IsDue job r
      → queue.can_add job.job_data.reference_publish_job ≡ false
      → Ends queue job
          (some r)
          (remove job.job_data.reference_publish_job.id
            ∷ addition job.job_data.reference_publish_job
            ∷ [])
          thrown
  finished :
      (r : Receipt) → r.found ≡ true → r.error ≡ none → Ends queue job (some r) [] (returned r)
  given_up :
      (r : Receipt) (error : RegistryError)
      → r.found ≡ true
      → r.error ≡ some error
      → (error.method ==ₛ "TooManyMessagesInBlock") ≡ false
      → Ends queue job (some r) [] unrecoverable

module _ (queue : PublishQueue) (job : ReceiptJob) {Db : Type 0} where
  abbrev End : Option Receipt → Run Db → Type 0
  End answer run = Ends queue job answer run.calls run.outcome
