-- ===== src/Batching/Closing/SpecRounds.antt =====
-- How often the closing of batches without Redis goes round, and what it leaves.
use content_publishing_servi.Common.{
  ℕ, ◌+◌, ◌*◌, ◌<◌, Option, none, some, List, [], ◌∷◌, ◌++◌, true, false, ◌≡◌, ◌≢◌, refl,
  Option-cases, inl, inr, arith, All, ltb, String, Bool, Bool-cases,
}
use content_publishing_servi.Services.Codec.{Codec}
use content_publishing_servi.Dsnp.{Announcement}
use content_publishing_servi.Batching.{
  BatchAnnouncerJob, BatchConfig, Round, Outcome, done, out_of_rounds, parse_rows,
  batch_lock_expire_seconds,
}
use content_publishing_servi.Batching.Spec.{Batch, leftover, spec_lock, spec_lock_over, stamp}
use content_publishing_servi.Batching.Closing.{
  QueueState, job_of, spec_queue, forget_locked, spec_deliver, spec_close_view, spec_close,
}

-- The time for which a batch stays locked, in milliseconds.
abbrev pub lock_ms : ℕ
lock_ms = batch_lock_expire_seconds * 1000

module _ (row_json : Codec Announcement) (config : BatchConfig) (q : String) where
  abbrev pub Returns : Outcome × QueueState → Type 0
  Returns r = r.0 ≢ out_of_rounds

  module _ (round : Round) (next : QueueState → Outcome × QueueState) where
    spec_deliver-Returns :
        (t : QueueState) (b : Batch)
        → ((jobs : List BatchAnnouncerJob)
            → Returns
                (next (forget_locked row_json config q round.deleted (record t { jobs = jobs }))))
        → Returns (spec_deliver row_json config q t round b next)
    unfolding spec_deliver
    spec_deliver-Returns t b h = elim (Option-cases (parse_rows row_json b.rows)) [
      | inl e ↦ rw (e, spec_deliver) (λ p. cc)
      | inr (read, e) ↦
          elim (Option-cases (spec_queue row_json config q t.jobs round.queued b read)) [
            | inl c ↦ rw (e, c, spec_deliver) (λ p. cc)
            | inr (jobs, c) ↦ rw (e, c, spec_deliver) (h jobs)
          ]
    ]

    -- A batch whose rows are read is delivered if the batch queue takes its job.
    spec_deliver-next :
        (t : QueueState) (b : Batch) (read : List Announcement) (deleted : Bool)
        → round.queued ≡ true
        → round.deleted ≡ deleted
        → parse_rows row_json b.rows ≡ some read
        → (jobs : List BatchAnnouncerJob) × (spec_deliver row_json config q t round b next
            ≡ next (forget_locked row_json config q deleted (record t { jobs = jobs })))
    unfolding spec_deliver spec_queue
    spec_deliver-next t b [] deleted c d e = (t.jobs, rw (e, spec_deliver) (rw d))
    spec_deliver-next t b (a ∷ rest) deleted c d e =
        (t.jobs ++ job_of row_json config q b (a ∷ rest) ∷ [], rw (e, c, spec_deliver) (rw d))

  pub spec_close_unlocked-Returns :
      (round : Round) (rounds : List Round) (o : Option Batch) (jobs : List BatchAnnouncerJob)
      → Returns (
          spec_close row_json config q
            (round ∷ rounds)
            (record { open_batch = o; locked_batch = none; jobs = jobs }))
  unfolding spec_close spec_lock
  spec_close_unlocked-Returns round rounds none jobs = λ p. cc
  spec_close_unlocked-Returns round rounds (some b) jobs =
      spec_deliver-Returns round (λ t'. (done, t')) _ _ (λ jobs' p. cc)

  pub spec_close_over-Returns :
      (first second : Round) (rounds : List Round) (o l : Batch) (jobs : List BatchAnnouncerJob)
      (since : Option ℕ)
      → first.deleted ≡ true
      → Returns (
          spec_close_view row_json config q
            (spec_lock_over l since first.now lock_ms)
            (record { open_batch = some o; locked_batch = some l; jobs = jobs })
            first
            (λ t. spec_close row_json config q (second ∷ rounds) t))
  unfolding spec_lock_over spec_close_view
  spec_close_over-Returns first second rounds o l jobs none d = λ p. cc
  spec_close_over-Returns first second rounds o l jobs (some since) d =
      elim (Bool-cases (ltb (since + lock_ms) first.now)) [
        | inl e ↦ rw e (
            spec_deliver-Returns first (λ t. spec_close row_json config q (second ∷ rounds) t) _ l
              λ jobs'. rw d (spec_close_unlocked-Returns second rounds (some o) jobs'))
        | inr e ↦ rw e (λ p. cc)
      ]

  -- Two rounds are enough for a call whose first deletion does not fail.
  pub spec_close-Returns :
      (first second : Round) (rounds : List Round) (o l : Option Batch)
      (jobs : List BatchAnnouncerJob)
      → first.deleted ≡ true
      → Returns (
          spec_close row_json config q
            (first ∷ second ∷ rounds)
            (record { open_batch = o; locked_batch = l; jobs = jobs }))
  unfolding spec_close spec_lock
  spec_close-Returns first second rounds none l jobs d = λ p. cc
  spec_close-Returns first second rounds (some o) none jobs d =
      spec_close_unlocked-Returns first (second ∷ rounds) (some o) jobs
  spec_close-Returns first second rounds (some o) (some l) jobs d =
      spec_close_over-Returns first second rounds o l jobs l.metadata.lock_timestamp d

  -- A batch that is ready to be delivered: its rows are read.
  abbrev pub IsReadable : Batch → Type 0
  IsReadable b = (read : List Announcement) × (parse_rows row_json b.rows ≡ some read)

  abbrev pub AllEmpty : Outcome × QueueState → Type 0
  AllEmpty r = (r.0 ≡ done) × (r.1.open_batch ≡ none) × (r.1.locked_batch ≡ none)

  pub spec_close_unlocked-AllEmpty :
      (round : Round) (rounds : List Round) (b : Batch) (jobs : List BatchAnnouncerJob)
      → round.queued ≡ true
      → round.deleted ≡ true
      → IsReadable b
      → AllEmpty (
          spec_close row_json config q
            (round ∷ rounds)
            (record { open_batch = some b; locked_batch = none; jobs = jobs }))
  unfolding spec_close spec_lock
  spec_close_unlocked-AllEmpty round rounds b jobs c d (read, e) =
      let (jobs', step) =
        spec_deliver-next round (λ t'. (done, t'))
          (record { open_batch = none; locked_batch = some (stamp b round.now); jobs = jobs })
          (stamp b round.now) read true c d e in
      rw step (refl, refl, refl)

  pub spec_lock_over-leftover :
      (l : Batch) (stamped : Option ℕ) (since now : ℕ)
      → stamped ≡ some since
      → since + lock_ms < now
      → spec_lock_over l stamped now lock_ms ≡ leftover l
  unfolding spec_lock_over
  spec_lock_over-leftover l stamped since now e late = rw e (ground arith)

  -- Where the batch queue takes the jobs and the deletions do not fail, two rounds leave no batch.
  pub spec_close-AllEmpty :
      (first second : Round) (rounds : List Round) (o l : Batch) (jobs : List BatchAnnouncerJob)
      (since : ℕ)
      → (first.queued ≡ true) × (first.deleted ≡ true)
      → (second.queued ≡ true) × (second.deleted ≡ true)
      → IsReadable o
      → IsReadable l
      → l.metadata.lock_timestamp ≡ some since
      → since + lock_ms < first.now
      → AllEmpty (
          spec_close row_json config q
            (first ∷ second ∷ rounds)
            (record { open_batch = some o; locked_batch = some l; jobs = jobs }))
  unfolding spec_close spec_lock spec_lock_over
  spec_close-AllEmpty first second rounds o l jobs since (c, d) (c', d') ready (read, e) t late =
      let (jobs', step) =
        spec_deliver-next first (λ u. spec_close row_json config q (second ∷ rounds) u)
          (record { open_batch = some o; locked_batch = some l; jobs = jobs }) l read true c d e in
      rw (spec_lock_over-leftover l l.metadata.lock_timestamp since first.now t late)
        (rw step (spec_close_unlocked-AllEmpty second rounds o jobs' c' d' ready))

  -- A round that finds a leftover batch, delivers it and fails to delete it.
  abbrev pub IsStuck : ℕ → Round → Type 0
  IsStuck since round =
      (round.queued ≡ true) × (round.deleted ≡ false) × (since + lock_ms < round.now)

  pub spec_close-stuck :
      (rounds : List Round) (o l : Batch) (jobs : List BatchAnnouncerJob) (since : ℕ)
      → IsReadable l
      → l.metadata.lock_timestamp ≡ some since
      → All (IsStuck since) rounds
      → (spec_close row_json config q rounds
          (record { open_batch = some o; locked_batch = some l; jobs = jobs })).0
        ≡ out_of_rounds
  unfolding spec_close spec_lock
  spec_close-stuck [] o l jobs since ready t all = refl
  spec_close-stuck (round ∷ rounds) o l jobs since (read, e) t (stuck, all) =
      let (jobs', step) =
        spec_deliver-next round (λ u. spec_close row_json config q rounds u)
          (record { open_batch = some o; locked_batch = some l; jobs = jobs }) l read false stuck.0
          stuck.1 e in
      rw (spec_lock_over-leftover l l.metadata.lock_timestamp since round.now t stuck.2)
        (rw step (spec_close-stuck rounds o l jobs' since (read, e) t all))
