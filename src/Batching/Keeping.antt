-- ===== src/Batching/Keeping.antt =====
-- What closeBatch, process and setupActiveBatchTimeout leave as it was: an observation of the state
-- that their single steps keep.
use content_publishing_servi.Common.{
  ℕ, ◌+◌, ◌*◌, String, Option, none, some, List, [], ◌∷◌, Bool, true, false, ◌≡◌, refl,
  Option-cases, Bool-cases, inl, inr, ◌∙◌, arith, leb, ◌==◌, ◌==ₛ◌,
}
use content_publishing_servi.Services.Redis.{Redis, Entry, missing, string, hash, Reply, ok, raised}
use content_publishing_servi.Services.Codec.{Codec}
use content_publishing_servi.Services.Scheduler.{Scheduler}
use content_publishing_servi.Dsnp.{Announcement}
use content_publishing_servi.Batching.{
  BatchAnnouncerJob, BatchTimeout, BatchConfig, Round, Outcome, done, parse_rows, BatchState,
  add_batch_timeout, queue_batch, delete_locked, close_locked, close_reply, close_batch,
  process_reply,
}
use content_publishing_servi.Batching.Setup.{
  setup_open_batch, setup_metadata, setup_entry, setup_active_batch_timeout,
}
use content_publishing_servi.Batching.Metadata.{BatchMetadata, keys_of, get_batch_metadata_key}
use content_publishing_servi.Batching.Scripts.{
  lock_batch, LockReply, no_batch, still_locked, leftover, locked,
}

module _ (redis : Redis) (scheduler : Scheduler BatchTimeout) (metadata_json : Codec BatchMetadata)
    (row_json : Codec Announcement) (config : BatchConfig) (q batch_id : String) {X : Type 0}
    (look : BatchState redis scheduler → X) where
  abbrev State : Type 0
  State = BatchState redis scheduler

  -- The steps of closeBatch that change the state
  pub record IsKept : Type 0 where
    pub at_lock :
        (s : State) (now interval : ℕ)
        → look (record s { db = (lock_batch redis metadata_json s.db (keys_of q) now interval).1 })
          ≡ look s
    pub at_jobs :
        (s : State) (jobs : List BatchAnnouncerJob) → look (record s { jobs = jobs }) ≡ look s
    pub at_deletion :
        (s : State) (deleted : Bool)
        → look (delete_locked redis scheduler metadata_json row_json config s q batch_id deleted)
          ≡ look s

  module _ (kept : IsKept) where
    queue_batch-kept :
        (s s' : State) (queued : Bool) (m : BatchMetadata) (read : List Announcement)
        → queue_batch redis scheduler metadata_json row_json config s q queued m read ≡ some s'
        → look s' ≡ look s
    unfolding queue_batch
    queue_batch-kept s s' queued m [] e = ground arith
    queue_batch-kept s s' false m (a ∷ rest) e = cc
    queue_batch-kept s s' true m (a ∷ rest) e = cc (kept.at_jobs s _)

    close_locked-kept :
        (s : State) (round : Round) (rows : List (String × String)) (raw : String)
        (next : State → Outcome × State)
        → ((u : State) → look (next u).1 ≡ look u)
        → look
            (close_locked redis scheduler metadata_json row_json config s q batch_id round rows raw
              next).1
          ≡ look s
    unfolding close_locked
    close_locked-kept s round rows raw next h = elim (Option-cases (metadata_json.decode raw)) [
      | inl d ↦ rw (d, close_locked) refl
      | inr (m, d) ↦ elim (Option-cases (parse_rows row_json rows)) [
        | inl e ↦ rw (d, e, close_locked) refl
        | inr (read, e) ↦
            elim (Option-cases
              (queue_batch redis scheduler metadata_json row_json config s q round.queued m read)) [
                | inl c ↦ rw (d, e, c, close_locked) refl
                | inr (s', c) ↦
                    rw (d, e, c, close_locked)
                      (h _
                        ∙ kept.at_deletion s' round.deleted
                        ∙ queue_batch-kept s s' round.queued m read c)
              ]
      ]
    ]

    close_reply-kept :
        (s : State) (round : Round) (r : Reply LockReply) (again : State → Outcome × State)
        → ((u : State) → look (again u).1 ≡ look u)
        → look
            (close_reply redis scheduler metadata_json row_json config s q batch_id round r again).1
          ≡ look s
    unfolding close_reply
    close_reply-kept s round (raised e) again h = refl
    close_reply-kept s round (ok no_batch) again h = refl
    close_reply-kept s round (ok still_locked) again h = refl
    close_reply-kept s round (ok (leftover rows raw)) again h =
        close_locked-kept s round rows raw again h
    close_reply-kept s round (ok (locked rows raw)) again h =
        close_locked-kept s round rows raw (λ u. (done, u)) (λ u. refl)

    pub close_batch-kept :
        (rounds : List Round) (s : State)
        → look (close_batch redis scheduler metadata_json row_json config rounds s q batch_id).1
          ≡ look s
    unfolding close_batch
    close_batch-kept [] s = refl
    close_batch-kept (round ∷ rounds) s =
        close_reply-kept _ round _ _ (λ u. close_batch-kept rounds u) ∙ kept.at_lock s round.now _

    module _
        (at_timeout : (s : State) (timeout_ms : ℕ)
          → look (add_batch_timeout redis scheduler s q batch_id timeout_ms) ≡ look s) where
      pub process_reply-kept :
          (rounds : List Round) (s : State) (r : Reply (Option ℕ))
          → look
              (process_reply redis scheduler metadata_json row_json config s q batch_id rounds r).1
            ≡ look s
      unfolding process_reply
      process_reply-kept rounds s (raised e) = refl
      process_reply-kept rounds s (ok none) = refl
      process_reply-kept rounds s (ok (some n)) = elim (Bool-cases (n == 1)) [
        | inl first ↦ rw first (at_timeout s _)
        | inr later ↦ elim (Bool-cases (leb config.batch_max_count n)) [
          | inl full ↦ rw (later, full) (close_batch-kept rounds s)
          | inr room ↦ rw (later, room) refl
        ]
      ]

      pub setup_open_batch-kept :
          (rounds : List Round) (s : State) (m : BatchMetadata) (now : ℕ)
          → m.batch_id ≡ batch_id
          → look (setup_open_batch redis scheduler metadata_json row_json config rounds s q m now).1
            ≡ look s
      unfolding setup_open_batch
      setup_open_batch-kept rounds s m now e =
          elim (Bool-cases (leb (m.start_timestamp + config.batch_interval_seconds * 1000) now)) [
            | inl late ↦ rw (late, e) (close_batch-kept rounds s)
            | inr early ↦ rw (early, e) (at_timeout s _)
          ]

module _ (redis : Redis) (scheduler : Scheduler BatchTimeout) (metadata_json : Codec BatchMetadata)
    (row_json : Codec Announcement) (config : BatchConfig) (q : String) {X : Type 0}
    (look : BatchState redis scheduler → X)
    (kept : (batch_id : String)
      → IsKept redis scheduler metadata_json row_json config q batch_id look)
    (at_timeout : (batch_id : String) (s : BatchState redis scheduler) (timeout_ms : ℕ)
      → look (add_batch_timeout redis scheduler s q batch_id timeout_ms) ≡ look s) where
  setup_entry-kept :
      (rounds : List Round) (s : BatchState redis scheduler) (now : ℕ) (e : Entry)
      → look (setup_entry redis scheduler metadata_json row_json config rounds s q now e).1 ≡ look s
  unfolding setup_entry
  setup_entry-kept rounds s now missing = refl
  setup_entry-kept rounds s now (hash rows) = refl
  setup_entry-kept rounds s now (string raw) = elim (Bool-cases (raw ==ₛ "")) [
    | inl empty ↦ rw empty refl
    | inr full ↦ elim (Option-cases (metadata_json.decode raw)) [
      | inl d ↦ rw (full, d, setup_metadata) refl
      | inr (m, d) ↦
          rw (full, d, setup_metadata)
            (setup_open_batch-kept redis scheduler metadata_json row_json config q m.batch_id look
              (kept m.batch_id) (at_timeout m.batch_id) rounds s m now refl)
    ]
  ]

  -- An observation that the steps of closeBatch and the new timeout keep, whatever the batch, is kept
  -- by setupActiveBatchTimeout.
  pub setup_active_batch_timeout-kept :
      (rounds : List Round) (s : BatchState redis scheduler) (now : ℕ)
      → look
          (setup_active_batch_timeout redis scheduler metadata_json row_json config rounds s q
            now).1
        ≡ look s
  unfolding setup_active_batch_timeout
  setup_active_batch_timeout-kept rounds s now =
      setup_entry-kept rounds s now (redis.view s.db (get_batch_metadata_key q))
