-- ===== src/Publisher/Pausing.antt =====
-- The pauses of the publish queue, and the timeout that ends a capacity epoch: the checks and the
-- handlers of apps/worker/src/publisher/publishing.service.ts.
use content_publishing_servi.Common.{
  ℕ, suc, Option, none, some, String, Bool, true, false, is_some, ◌≡◌, refl, Option-cases, inl, inr,
  ◌||◌, Bool-cases, ◌∙◌,
}
use content_publishing_servi.Services.Redis.{Redis}
use content_publishing_servi.Services.Scheduler.{Scheduler}
use content_publishing_servi.Blockchain.Capacity.{CapacityInfo}
use content_publishing_servi.Monitor.{PublisherJob}
use content_publishing_servi.Publisher.{
  CapacityLimit, State, begin_exhausted, add_epoch_timeout, end_exhausted, delete_epoch_timeout,
  handle_capacity_refilled, emit_capacity, check_capacity, capacity_test,
  capacity_epoch_timeout_name, process, handle_failure, try_publish, sent,
  send_job_to_tx_receipt_queue, is_fee_error,
}
use content_publishing_servi.Publisher.Submitting.{Submitter, publish, Answer, answered, rejected}

module _ (redis : Redis) (scheduler : Scheduler ℕ) where
  -- Whether the timeout of the epoch's end is registered
  abbrev pub has_timeout : State redis scheduler → Bool
  has_timeout st = is_some (scheduler.find st.timers capacity_epoch_timeout_name)

  add_epoch_timeout-has_timeout :
      (st : State redis scheduler) (delay : ℕ)
      → has_timeout (
          add_epoch_timeout redis scheduler st delay
            (scheduler.find st.timers capacity_epoch_timeout_name))
        ≡ true
  unfolding add_epoch_timeout
  add_epoch_timeout-has_timeout st delay =
      elim (Option-cases (scheduler.find st.timers capacity_epoch_timeout_name)) [
        | inl e ↦
            simp
              (
                e,
                scheduler.find-add_timeout st.timers capacity_epoch_timeout_name delay
                    capacity_epoch_timeout_name e,
              )
              refl
        | inr (d, e) ↦ simp (e) refl
      ]

  delete_epoch_timeout-has_timeout :
      (st : State redis scheduler)
      → has_timeout (
          delete_epoch_timeout redis scheduler st
            (scheduler.find st.timers capacity_epoch_timeout_name))
        ≡ false
  unfolding delete_epoch_timeout
  delete_epoch_timeout-has_timeout st =
      elim (Option-cases (scheduler.find st.timers capacity_epoch_timeout_name)) [
        | inl e ↦ simp (e) refl
        | inr (d, e) ↦ simp (e, scheduler.find-delete_timeout) refl
      ]

  -- The flag and the pause are those of the state before.
  abbrev Keeps : State redis scheduler → State redis scheduler → Type 0
  Keeps st st' = (st'.capacity_exhausted ≡ st.capacity_exhausted) × (st'.paused ≡ st.paused)

  add_epoch_timeout-Keeps :
      (st : State redis scheduler) (delay : ℕ) (known : Option ℕ)
      → Keeps st (add_epoch_timeout redis scheduler st delay known)
  unfolding add_epoch_timeout
  add_epoch_timeout-Keeps st delay none = (refl, refl)
  add_epoch_timeout-Keeps st delay (some other) = (refl, refl)

  delete_epoch_timeout-Keeps :
      (st : State redis scheduler) (known : Option ℕ)
      → Keeps st (delete_epoch_timeout redis scheduler st known)
  unfolding delete_epoch_timeout
  delete_epoch_timeout-Keeps st none = (refl, refl)
  delete_epoch_timeout-Keeps st (some delay) = (refl, refl)

  emit_capacity_lem :
      (st : State redis scheduler) (capacity : CapacityInfo) (out : Bool)
      → let (st', done) = emit_capacity redis scheduler st (some capacity) (some out) in
        (done ≡ true)
        × (st'.capacity_exhausted ≡ out)
        × (has_timeout st' ≡ out)
        × (st'.paused ≡ (out || st.paused))
  unfolding emit_capacity end_exhausted begin_exhausted handle_capacity_refilled
  emit_capacity_lem st capacity true =
      let (flag, pause) =
        add_epoch_timeout-Keeps (begin_exhausted redis scheduler st) _
          (scheduler.find st.timers capacity_epoch_timeout_name) in
      (refl, flag, add_epoch_timeout-has_timeout (begin_exhausted redis scheduler st) _, pause)
  emit_capacity_lem st capacity false =
      let (flag, pause) =
        delete_epoch_timeout-Keeps (record st { capacity_exhausted = false })
          (scheduler.find st.timers capacity_epoch_timeout_name) in
      (
        refl,
        flag,
        delete_epoch_timeout-has_timeout (record st { capacity_exhausted = false }),
        pause,
      )

  -- A check whose calls are answered sets the flag to what its test says, and it leaves the timeout
  -- of the epoch's end registered exactly if the capacity is exhausted. An exhausted capacity pauses
  -- the publish queue; one that is refilled leaves it as it is.
  pub check_capacity_lem :
      (limit : CapacityLimit) (st : State redis scheduler) (now : Option CapacityInfo)
      (later : CapacityInfo) (out : Bool)
      → capacity_test redis scheduler st.db limit now ≡ some out
      → let (st', done) = check_capacity redis scheduler limit st now (some later) in
        (done ≡ true)
        × (st'.capacity_exhausted ≡ out)
        × (has_timeout st' ≡ out)
        × (st'.paused ≡ (out || st.paused))
  unfolding check_capacity
  check_capacity_lem limit st now later out e = simp (e) (emit_capacity_lem st later out)

  abbrev pub IsPaused : State redis scheduler → Type 0
  IsPaused st = st.paused ≡ true

  emit_capacity-IsPaused :
      (st : State redis scheduler) (later : Option CapacityInfo) (out : Option Bool)
      → IsPaused st
      → IsPaused (emit_capacity redis scheduler st later out).0
  unfolding emit_capacity end_exhausted begin_exhausted handle_capacity_refilled
  emit_capacity-IsPaused st later none h = h
  emit_capacity-IsPaused st none (some true) h = refl
  emit_capacity-IsPaused st (some capacity) (some true) h =
      (add_epoch_timeout-Keeps (begin_exhausted redis scheduler st) _
        (scheduler.find st.timers capacity_epoch_timeout_name)).1
  emit_capacity-IsPaused st later (some false) h =
      (delete_epoch_timeout-Keeps (record st { capacity_exhausted = false })
        (scheduler.find st.timers capacity_epoch_timeout_name)).1
      ∙ h

  handle_failure-IsPaused :
      (st : State redis scheduler) (message : String)
      → IsPaused st
      → IsPaused (handle_failure redis scheduler st message)
  unfolding handle_failure
  handle_failure-IsPaused st message h = elim (Bool-cases (is_fee_error message)) [
    | inl e ↦ simp (e) refl
    | inr e ↦ simp (e) h
  ]

  sent-IsPaused :
      (submitter : Submitter) (st : State redis scheduler)
      → IsPaused st
      → (job : PublisherJob) (block_hash : String) (refusal : Option String)
        (answer : Answer String × redis.Db)
      → IsPaused (sent redis scheduler submitter st job block_hash refusal answer).0
  unfolding sent send_job_to_tx_receipt_queue
  sent-IsPaused submitter st h job block_hash none (answered tx_hash, db) = h
  sent-IsPaused submitter st h job block_hash (some message) (answered tx_hash, db) =
      handle_failure-IsPaused (record st { db = db }) message h
  sent-IsPaused submitter st h job block_hash refusal (rejected message, db) =
      handle_failure-IsPaused (record st { db = db }) message h

  try_publish-IsPaused :
      (submitter : Submitter) (st : State redis scheduler) (job : PublisherJob)
      (refusal : Option String) (block_hash : Answer String)
      → IsPaused st
      → IsPaused (try_publish redis scheduler submitter st job refusal block_hash).0
  unfolding try_publish
  try_publish-IsPaused submitter st job refusal (rejected message) h =
      handle_failure-IsPaused st message h
  try_publish-IsPaused submitter st job refusal (answered block_hash) h =
      sent-IsPaused submitter st h job block_hash refusal (publish redis submitter st.db job)

  -- What can happen to the service: a job is processed, a timeout runs its check, or a handler that
  -- nobody awaits comes to its end. Every answer of the node and of the queue is possible.
  pub data Step : State redis scheduler → State redis scheduler → Type 1 where
    processed :
        (submitter : Submitter) (limit : CapacityLimit) (st : State redis scheduler)
        (job : PublisherJob) (refusal : Option String) (now later : Option CapacityInfo)
        → Step st (process redis scheduler submitter limit st job refusal now later).0
    checked :
        (limit : CapacityLimit) (st : State redis scheduler) (now later : Option CapacityInfo)
        → Step st (check_capacity redis scheduler limit st now later).0
    handled :
        (st : State redis scheduler) (n : ℕ) (later : Option CapacityInfo)
        → st.unfinished ≡ suc n
        → Step st (end_exhausted redis scheduler (record st { unfinished = n }) later).0

  pub data Steps : State redis scheduler → State redis scheduler → Type 1 where
    done : (st : State redis scheduler) → Steps st st
    more : (st st' st'' : State redis scheduler) → Step st st' → Steps st' st'' → Steps st st''

  Step-IsPaused : (st st' : State redis scheduler) → Step st st' → IsPaused st → IsPaused st'
  unfolding process check_capacity end_exhausted
  Step-IsPaused st st' (Step.processed submitter limit _ job refusal now later) h =
      emit_capacity-IsPaused _ later _
        (try_publish-IsPaused submitter st job refusal submitter.latest_finalized_block_hash h)
  Step-IsPaused st st' (Step.checked limit _ now later) h = emit_capacity-IsPaused st later _ h
  Step-IsPaused st st' (Step.handled _ n none e) h = h
  Step-IsPaused st st' (Step.handled _ n (some capacity) e) h =
      (add_epoch_timeout-Keeps (record st { unfinished = n }) _
        (scheduler.find st.timers capacity_epoch_timeout_name)).1
      ∙ h

  -- Once the publish queue is paused it stays so, whatever jobs, checks and handlers follow: the
  -- service never resumes it, though the capacity may be refilled.
  pub Steps-IsPaused : (st st' : State redis scheduler) → Steps st st' → IsPaused st → IsPaused st'
  Steps-IsPaused st st' (Steps.done _) h = h
  Steps-IsPaused st st' (Steps.more _ mid _ step rest) h =
      Steps-IsPaused mid st' rest (Step-IsPaused st mid step h)
