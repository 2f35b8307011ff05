-- ===== src/Monitor/Capacity.antt =====
-- The capacity that the monitor counts for an epoch: setEpochCapacity of
-- apps/worker/src/monitor/tx.status.monitor.service.ts.
use content_publishing_servi.Common.{
  ℕ, suc, ◌+◌, ◌*◌, Option, none, some, ◌==ₛ◌, ◌==◌, >>=-some, ltb, List, [], ◌∷◌, ◌&&◌, not, show,
  big_int-show, or_else, Option-cases, Bool-cases, inl, inr, ◌⊎◌, ◌≡◌, refl, ◌∙◌, sym, ap, arith,
  eq_iff, Bool, true, false, if◌then◌else◌,
}
use text.Mathlib.TextPositions.{eq_refl}
use content_publishing_servi.Services.Redis.{Redis}
use content_publishing_servi.Blockchain.Crawl.{Receipt, RegistryError}
use content_publishing_servi.Blockchain.Search.{crawl_block_list_for_tx-withdrawn}
use content_publishing_servi.Monitor.{
  ReceiptJob, Node, Call, ErrorReport, after_retry, process_report, retry_publish_job, PublishQueue,
  Run, epoch_capacity_key, saved_capacity, try_set_epoch_capacity, set_epoch_capacity,
  seconds_per_block, milliseconds_per_second, find_receipt, success_events, process,
  process_missing, process_error, process_answer, handle_messages_failure, pause,
}

positive : (blocks : ℕ) → (suc blocks * seconds_per_block * milliseconds_per_second == 0) ≡ false
positive blocks = ground arith

module _ (redis : Redis) where
  -- The capacity counted for an epoch; none if what is stored is no number
  abbrev pub counted : redis.Db → ℕ → Option ℕ
  counted db epoch = saved_capacity (redis.view db (epoch_capacity_key epoch))

  counted-setex :
      (db : redis.Db) (duration epoch n : ℕ)
      → counted (redis.setex db (epoch_capacity_key epoch) duration (show n)) epoch ≡ some n
  unfolding saved_capacity
  counted-setex db duration epoch n =
      rw
        (
          redis.view-setex db (epoch_capacity_key epoch) duration (show n)
              (epoch_capacity_key epoch),
          eq_refl (epoch_capacity_key epoch),
        )
        (big_int-show n)

  -- setEpochCapacity adds the capacity withdrawn to the capacity counted for the epoch, if the
  -- length of an epoch is known and not 0.
  pub set_epoch_capacity-counted :
      (db : redis.Db) (epoch_length : Option ℕ) (blocks epoch withdrawn n : ℕ)
      → epoch_length ≡ some (suc blocks)
      → counted db epoch ≡ some n
      → counted (set_epoch_capacity redis db epoch_length epoch withdrawn) epoch
        ≡ some (n + withdrawn)
  unfolding set_epoch_capacity
  set_epoch_capacity-counted db epoch_length blocks epoch withdrawn n l h =
      rw (h, l, positive blocks) (counted-setex db _ epoch (n + withdrawn))

  -- How the try block ends: it throws, or it writes what was counted and the capacity withdrawn
  try_set_epoch_capacity-cases :
      (db : redis.Db) (epoch_length : Option ℕ) (epoch withdrawn : ℕ)
      → (try_set_epoch_capacity redis db epoch_length epoch withdrawn ≡ none)
        ⊎ ((c : ℕ) × (duration : ℕ) × (counted db epoch ≡ some c)
            × (try_set_epoch_capacity redis db epoch_length epoch withdrawn
                ≡ some (redis.setex db (epoch_capacity_key epoch) duration (show (c + withdrawn)))))
  unfolding try_set_epoch_capacity
  try_set_epoch_capacity-cases db epoch_length epoch withdrawn =
      elim (Option-cases (counted db epoch)) [
        | inl e ↦ inl (rw e refl)
        | inr (c, e) ↦ elim (Option-cases epoch_length) [
          | inl l ↦ inl (rw (e, l) refl)
          | inr (blocks, l) ↦
              elim (Bool-cases (blocks * seconds_per_block * milliseconds_per_second == 0)) [
                | inl z ↦ inl (rw (e, l, z) refl)
                | inr z ↦
                    inr (
                      c,
                      blocks * seconds_per_block * milliseconds_per_second,
                      e,
                      rw (e, l, z) refl,
                    )
              ]
        ]
      ]

  counted-setex-same :
      (db : redis.Db) (duration epoch other c : ℕ)
      → counted db epoch ≡ some c
      → counted (redis.setex db (epoch_capacity_key epoch) duration (show (c + 0))) other
        ≡ counted db other
  unfolding saved_capacity
  counted-setex-same db duration epoch other c h =
      elim (Bool-cases (epoch_capacity_key epoch ==ₛ epoch_capacity_key other)) [
        | inl e ↦
            rw
              (
                redis.view-setex db (epoch_capacity_key epoch) duration (show (c + 0))
                    (epoch_capacity_key other),
                e,
              )
              (big_int-show (c + 0)
                ∙ ap some (omega arith)
                ∙ sym h
                ∙ ap (λ k. saved_capacity (redis.view db k)) ((eq_iff _ _).0 e))
        | inr e ↦
            rw
              (
                redis.view-setex db (epoch_capacity_key epoch) duration (show (c + 0))
                    (epoch_capacity_key other),
                e,
              )
              refl
      ]

  -- Nothing withdrawn leaves every epoch's count as it is.
  set_epoch_capacity-nothing :
      (db : redis.Db) (epoch_length : Option ℕ) (epoch other : ℕ)
      → counted (set_epoch_capacity redis db epoch_length epoch 0) other ≡ counted db other
  unfolding set_epoch_capacity
  set_epoch_capacity-nothing db epoch_length epoch other =
      elim (try_set_epoch_capacity-cases db epoch_length epoch 0) [
        | inl e ↦ rw e refl
        | inr (c, duration, h, e) ↦ rw e (counted-setex-same db duration epoch other c h)
      ]

  find_receipt-withdrawn :
      (node : Node) (job : ReceiptJob) (r : Receipt)
      → find_receipt node job ≡ some r
      → r.capacity_withdrawn ≡ none
  unfolding find_receipt
  find_receipt-withdrawn node job r e =
      let (previous, p, e') =
        >>=-some (node.block_number job.job_data.last_finalized_block_hash) _ r e in
      let (current, c, e'') = >>=-some node.latest_finalized_block_number _ r e' in
      crawl_block_list_for_tx-withdrawn node.chain job.job_data.tx_hash success_events _ r e''

  after_retry-db :
      (db : redis.Db) (before : List Call) (answer : List Call × Bool) (r : Receipt)
      → (after_retry db before answer r).db ≡ db
  unfolding after_retry
  after_retry-db db before (calls, succeeded) r = refl

  if-db :
      (b : Bool) (x y : Run redis.Db) (db : redis.Db)
      → x.db ≡ db
      → y.db ≡ db
      → (if b then x else y).db ≡ db
  if-db true x y db p q = p
  if-db false x y db p q = q

  process_missing-db :
      (queue : PublishQueue) (db : redis.Db) (job : ReceiptJob) (r : Receipt)
      → (process_missing queue db job r).db ≡ db
  unfolding process_missing
  process_missing-db queue db job r =
      if-db (ltb job.attempts_made (or_else job.attempts 3)) _ _ db refl
        (after_retry-db db [] (retry_publish_job queue job.job_data.reference_publish_job) r)

  process_report-db :
      (queue : PublishQueue) (db : redis.Db) (job : ReceiptJob) (r : Receipt) (report : ErrorReport)
      → (process_report queue db job r report).db ≡ db
  unfolding process_report
  process_report-db queue db job r report =
      if-db (report.pauses && not queue.can_pause) _ _ db refl (
        if-db report.retries _ _ db
          (after_retry-db db (if report.pauses then pause ∷ [] else [])
            (retry_publish_job queue job.job_data.reference_publish_job) r)
          refl)

  process_error-db :
      (queue : PublishQueue) (db : redis.Db) (job : ReceiptJob) (r : Receipt)
      (error : Option RegistryError)
      → (process_error queue db job r error).db ≡ db
  unfolding process_error
  process_error-db queue db job r none = refl
  process_error-db queue db job r (some error) =
      process_report-db queue db job r (handle_messages_failure error)

  process_receipt-counted :
      (queue : PublishQueue) (epoch_length : Option ℕ) (db : redis.Db) (job : ReceiptJob)
      (r : Receipt) (epoch : ℕ) (found : Bool) (withdrawn : Option ℕ)
      → withdrawn ≡ none
      → counted
          (if found
            then process_error queue
                (set_epoch_capacity redis db epoch_length
                  (or_else r.capacity_epoch 0)
                  (or_else withdrawn 0))
                job
                r
                r.error
            else process_missing queue db job r).db
          epoch
        ≡ counted db epoch
  process_receipt-counted queue epoch_length db job r epoch true withdrawn h =
      ap (λ d. counted d epoch) (process_error-db queue _ job r r.error)
      ∙ ap
          (λ w.
            counted
              (set_epoch_capacity redis db epoch_length (or_else r.capacity_epoch 0) (or_else w 0))
              epoch)
          h
      ∙ set_epoch_capacity-nothing db epoch_length (or_else r.capacity_epoch 0) epoch
  process_receipt-counted queue epoch_length db job r epoch false withdrawn h =
      ap (λ d. counted d epoch) (process_missing-db queue db job r)

  process_answer-counted :
      (queue : PublishQueue) (epoch_length : Option ℕ) (db : redis.Db) (job : ReceiptJob)
      (answer : Option Receipt) (epoch : ℕ)
      → ((r : Receipt) → answer ≡ some r → r.capacity_withdrawn ≡ none)
      → counted (process_answer redis queue epoch_length db job answer).db epoch ≡ counted db epoch
  unfolding process_answer
  process_answer-counted queue epoch_length db job none epoch h = refl
  process_answer-counted queue epoch_length db job (some r) epoch h =
      process_receipt-counted queue epoch_length db job r epoch r.found r.capacity_withdrawn
        (h r refl)

  -- Whatever the monitor finds of a transaction, the capacity counted for every epoch stays as it is.
  pub process-counted :
      (queue : PublishQueue) (node : Node) (db : redis.Db) (job : ReceiptJob) (epoch : ℕ)
      → counted (process redis queue node db job).db epoch ≡ counted db epoch
  unfolding process
  process-counted queue node db job epoch =
      process_answer-counted queue node.current_epoch_length db job (find_receipt node job) epoch
        (λ r e. find_receipt-withdrawn node job r e)
