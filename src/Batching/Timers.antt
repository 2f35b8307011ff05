-- ===== src/Batching/Timers.antt =====
-- The timeouts that close batches.
use content_publishing_servi.Common.{
  ℕ, String, none, some, List, Bool, true, false, ◌≡◌, ◌≢◌, refl, Option-cases, Bool-cases, inl,
  inr, ◌∙◌, ==-false, is_some,
}
use text.Mathlib.TextPositions.{eq_refl}
use content_publishing_servi.Services.Redis.{Redis}
use content_publishing_servi.Services.Codec.{Codec}
use content_publishing_servi.Services.Scheduler.{Scheduler}
use content_publishing_servi.Dsnp.{Announcement}
use content_publishing_servi.Batching.{
  BatchTimeout, BatchConfig, Round, BatchState, get_timeout_name, remove_timeout, add_batch_timeout,
  delete_locked, process, first_metadata,
}
use content_publishing_servi.Batching.Keeping.{IsKept, process_reply-kept}
use content_publishing_servi.Batching.Metadata.{BatchMetadata, keys_of}
use content_publishing_servi.Batching.Scripts.{add_to_batch}

module _ (redis : Redis) (scheduler : Scheduler BatchTimeout) where
  open scheduler use {Timers, find, delete_timeout, find-delete_timeout, find-add_timeout}

  find-remove_timeout_ne :
      (ts : Timers) (n m : String)
      → n ≢ m
      → find (remove_timeout redis scheduler ts n) m ≡ find ts m
  unfolding remove_timeout
  find-remove_timeout_ne ts n m h = elim (Bool-cases (is_some (find ts n))) [
    | inl e ↦ rw e (simp (find-delete_timeout, ==-false n m h))
    | inr e ↦ rw e refl
  ]

  find-remove_timeout_self :
      (ts : Timers) (n : String) → find (remove_timeout redis scheduler ts n) n ≡ none
  unfolding remove_timeout
  find-remove_timeout_self ts n = elim (Option-cases (find ts n)) [
    | inl e ↦ rw e e
    | inr (t, e) ↦ rw e (simp (find-delete_timeout, eq_refl))
  ]

  -- A timeout that has another name stays as it is, also an absent one.
  pub find-add_batch_timeout_ne :
      (s : BatchState redis scheduler) (q batch_id name : String) (timeout_ms : ℕ)
      → get_timeout_name q batch_id ≢ name
      → find (add_batch_timeout redis scheduler s q batch_id timeout_ms).timers name
        ≡ find s.timers name
  unfolding add_batch_timeout
  find-add_batch_timeout_ne s q batch_id name timeout_ms h =
      find-add_timeout _ (get_timeout_name q batch_id) _ name (find-remove_timeout_self s.timers _)
      ∙ rw (==-false (get_timeout_name q batch_id) name h)
          (find-remove_timeout_ne s.timers (get_timeout_name q batch_id) name h)

  pub find-add_batch_timeout_self :
      (s : BatchState redis scheduler) (q batch_id : String) (timeout_ms : ℕ)
      → find
          (add_batch_timeout redis scheduler s q batch_id timeout_ms).timers
          (get_timeout_name q batch_id)
        ≡ some (record { queue_name = q; batch_id = batch_id; timeout_ms = timeout_ms })
  unfolding add_batch_timeout
  find-add_batch_timeout_self s q batch_id timeout_ms =
      find-add_timeout _ (get_timeout_name q batch_id) _ _ (find-remove_timeout_self s.timers _)
      ∙ rw eq_refl refl

  module _ (metadata_json : Codec BatchMetadata) (row_json : Codec Announcement)
      (config : BatchConfig) (q batch_id name : String)
      (other : get_timeout_name q batch_id ≢ name) where
    find-delete_locked :
        (s : BatchState redis scheduler) (deleted : Bool)
        → find
            (delete_locked redis scheduler metadata_json row_json config s q batch_id
              deleted).timers
            name
          ≡ find s.timers name
    unfolding delete_locked
    find-delete_locked s false = refl
    find-delete_locked s true = find-remove_timeout_ne s.timers _ name other

    pub find-IsKept :
        IsKept redis scheduler metadata_json row_json config q batch_id (λ s. find s.timers name)
    find-IsKept = record {
      at_lock = λ s now interval. refl;
      at_jobs = λ s jobs. refl;
      at_deletion = find-delete_locked;
    }

    -- Processing a job, whether it closes a batch or not and whether it returns or throws, leaves
    -- every timeout alone but the one that is named by the id made for this job. So the timeout of
    -- an open batch, named by the id made for its first job, outlives the closing of the batch by
    -- its count.
    pub process_keeps_timers :
        (rounds : List Round) (s : BatchState redis scheduler) (job_id : String) (a : Announcement)
        (now : ℕ)
        → find
            (process redis scheduler metadata_json row_json config rounds s q job_id a batch_id
              now).1.timers
            name
          ≡ find s.timers name
    unfolding process
    process_keeps_timers rounds s job_id a now =
        let (row_count, db') =
          add_to_batch redis metadata_json s.db (keys_of q)
            (metadata_json.encode (first_metadata batch_id now)) job_id (row_json.encode a) in
        process_reply-kept redis scheduler metadata_json row_json config q batch_id
          (λ s. find s.timers name) find-IsKept
          (λ s timeout_ms. find-add_batch_timeout_ne s q batch_id name timeout_ms other) rounds
          (record s { db = db' }) row_count
