-- ===== src/Batching/Closing/Rounds.antt =====
-- How often closeBatch calls itself, and what it has done when it returns.
use mathlib.Core.List.{append-nil}
use mathlib.Core.Path.{subst₂}
use content_publishing_servi.Common.{
  ℕ, ◌+◌, ◌<◌, Option, none, some, List, [], ◌∷◌, ◌++◌, true, ◌≡◌, ◌≢◌, ap, sym, ◌∙◌, All, String,
}
use content_publishing_servi.Services.Redis.{Redis}
use content_publishing_servi.Services.Codec.{Codec}
use content_publishing_servi.Services.Scheduler.{Scheduler}
use content_publishing_servi.Dsnp.{Announcement}
use content_publishing_servi.Batching.{
  BatchAnnouncerJob, BatchTimeout, BatchConfig, Round, Outcome, done, out_of_rounds, BatchState,
  close_batch,
}
use content_publishing_servi.Batching.Metadata.{BatchMetadata}
use content_publishing_servi.Batching.Spec.{Batch}
use content_publishing_servi.Batching.Closing.{QueueState, spec_close}
use content_publishing_servi.Batching.Closing.Delivery.{Shows, close_batch-spec_close}
use content_publishing_servi.Batching.Closing.Conservation.{
  holdings, contents, delivered, holdings-spec_close,
}
use content_publishing_servi.Batching.Closing.SpecRounds.{
  lock_ms, spec_close-Returns, IsReadable, AllEmpty, spec_close_unlocked-AllEmpty,
  spec_close-AllEmpty, IsStuck, spec_close-stuck,
}

module _ (redis : Redis) (scheduler : Scheduler BatchTimeout) (metadata_json : Codec BatchMetadata)
    (row_json : Codec Announcement) (config : BatchConfig) (q : String) where
  abbrev pub closing :
      List Round → BatchState redis scheduler → String → Outcome × BatchState redis scheduler
  closing rounds s batch_id =
      close_batch redis scheduler metadata_json row_json config rounds s q batch_id

  -- closeBatch calls itself at most once if the deletion of the locked keys does not fail: with
  -- two rounds it returns or throws.
  pub close_batch_returns :
      (first second : Round) (rounds : List Round) (s : BatchState redis scheduler) (t : QueueState)
      (batch_id : String)
      → first.deleted ≡ true
      → Shows redis scheduler metadata_json row_json config q s t
      → (closing (first ∷ second ∷ rounds) s batch_id).0 ≢ out_of_rounds
  close_batch_returns first second rounds s t batch_id d h p =
      spec_close-Returns row_json config q first second rounds t.open_batch t.locked_batch t.jobs d
        (sym (
            (close_batch-spec_close redis scheduler metadata_json row_json config q
              (first ∷ second ∷ rounds) s t batch_id h).0)
          ∙ p)

  abbrev IsLate : Option Batch → ℕ → Type 0
  IsLate none now = Unit
  IsLate (some l) now =
      IsReadable row_json config q l
      × ((since : ℕ) × (l.metadata.lock_timestamp ≡ some since) × (since + lock_ms < now))

  spec_close_complete :
      (first second : Round) (rounds : List Round) (o : Batch) (l : Option Batch)
      (jobs : List BatchAnnouncerJob)
      → (first.queued ≡ true) × (first.deleted ≡ true)
      → (second.queued ≡ true) × (second.deleted ≡ true)
      → IsReadable row_json config q o
      → IsLate l first.now
      → AllEmpty row_json config q (
          spec_close row_json config q
            (first ∷ second ∷ rounds)
            (record { open_batch = some o; locked_batch = l; jobs = jobs }))
  spec_close_complete first second rounds o none jobs (c, d) cd' ready late =
      spec_close_unlocked-AllEmpty row_json config q first (second ∷ rounds) o jobs c d ready
  spec_close_complete first second rounds o (some l) jobs cd cd' ready (read, (since, t, late)) =
      spec_close-AllEmpty row_json config q first second rounds o l jobs since cd cd' ready read t
        late

  Shows-slots :
      (s : BatchState redis scheduler) (u : QueueState) (o l : Option Batch)
      → u.open_batch ≡ o
      → u.locked_batch ≡ l
      → Shows redis scheduler metadata_json row_json config q s u
      → Shows redis scheduler metadata_json row_json config q s
          (record { open_batch = o; locked_batch = l; jobs = u.jobs })
  Shows-slots s u o l eo el h =
      subst₂
        (λ o l.
          Shows redis scheduler metadata_json row_json config q s
            (record { open_batch = o; locked_batch = l; jobs = u.jobs }))
        eo el h

  delivered_all :
      (u : QueueState)
      → u.open_batch ≡ none
      → u.locked_batch ≡ none
      → delivered u.jobs ≡ holdings row_json config q u
  delivered_all u eo el =
      sym (append-nil (delivered u.jobs))
      ∙ ap (λ l. delivered u.jobs ++ l)
          (λ i. contents row_json (sym el i) ++ contents row_json (sym eo i))

  -- A queue with an open batch, and with no locked batch or one that has been locked for more than
  -- six seconds: where the rows are read, the batch queue takes the jobs and the deletions do not
  -- fail, closeBatch returns, no batch is left, and the jobs hold what was delivered before, then
  -- the locked batch's announcements and then the open batch's.
  pub close_batch_complete :
      (first second : Round) (s : BatchState redis scheduler) (o : Batch) (l : Option Batch)
      (jobs : List BatchAnnouncerJob) (batch_id : String)
      → (first.queued ≡ true) × (first.deleted ≡ true)
      → (second.queued ≡ true) × (second.deleted ≡ true)
      → IsReadable row_json config q o
      → IsLate l first.now
      → Shows redis scheduler metadata_json row_json config q s
          (record { open_batch = some o; locked_batch = l; jobs = jobs })
      → ((closing (first ∷ second ∷ []) s batch_id).0 ≡ done)
        × ((jobs' : List BatchAnnouncerJob) × Shows redis scheduler metadata_json row_json config q
              (closing (first ∷ second ∷ []) s batch_id).1
              (record { open_batch = none; locked_batch = none; jobs = jobs' })
            × (delivered jobs'
                ≡ holdings row_json config q
                    (record { open_batch = some o; locked_batch = l; jobs = jobs })))
  close_batch_complete first second s o l jobs batch_id cd cd' ready late h =
      let t : QueueState = record { open_batch = some o; locked_batch = l; jobs = jobs } in
      let (returned, opened, unlocked) =
        spec_close_complete first second [] o l jobs cd cd' ready late in
      let (same, shown) =
        close_batch-spec_close redis scheduler metadata_json row_json config q (first ∷ second ∷ [])
          s t batch_id h in
      (
        same ∙ returned,
        (
          (spec_close row_json config q (first ∷ second ∷ []) t).1.jobs,
          Shows-slots _ _ _ _ opened unlocked shown,
          delivered_all (spec_close row_json config q (first ∷ second ∷ []) t).1 opened unlocked
              ∙ holdings-spec_close row_json config q (first ∷ second ∷ []) t (cd.1, (cd'.1, tt)),
        ),
      )

  -- If a batch that has been locked for more than six seconds can never be deleted, then closeBatch
  -- of a queue with an open batch does not return, however many rounds it takes.
  pub close_batch_stuck :
      (rounds : List Round) (s : BatchState redis scheduler) (o l : Batch)
      (jobs : List BatchAnnouncerJob) (since : ℕ) (batch_id : String)
      → IsReadable row_json config q l
      → l.metadata.lock_timestamp ≡ some since
      → All (IsStuck row_json config q since) rounds
      → Shows redis scheduler metadata_json row_json config q s
          (record { open_batch = some o; locked_batch = some l; jobs = jobs })
      → (closing rounds s batch_id).0 ≡ out_of_rounds
  close_batch_stuck rounds s o l jobs since batch_id ready t all h =
      (close_batch-spec_close redis scheduler metadata_json row_json config q rounds s _ batch_id
        h).0
      ∙ spec_close-stuck row_json config q rounds o l jobs since ready t all
