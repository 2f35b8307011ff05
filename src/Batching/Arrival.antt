-- ===== src/Batching/Arrival.antt =====
-- An announcement that arrives in a queue's batches.
use mathlib.Core.List.{Perm, perm_middle, append_assoc}
use mathlib.Core.List.Perm
use mathlib.Core.Path.{subst, subst₂}
use content_publishing_servi.Common.{
  ℕ, String, Option, none, some, List, ◌∷◌, ◌++◌, false, ◌≡◌, refl, sym, inl, inr, Bool-cases, ◌==◌,
  leb,
}
use content_publishing_servi.Services.Redis.{Redis, ok, has_field}
use content_publishing_servi.Services.Codec.{Codec}
use content_publishing_servi.Services.Scheduler.{Scheduler}
use content_publishing_servi.Queues.{AnnouncementTypeDto, announcement_to_queue_name}
use content_publishing_servi.Dsnp.{Announcement}
use content_publishing_servi.Batching.{
  BatchAnnouncerJob, BatchTimeout, BatchConfig, Round, BatchState, add_batch_timeout, process_reply,
  process, first_metadata,
}
use content_publishing_servi.Batching.Metadata.{BatchMetadata, keys_of}
use content_publishing_servi.Batching.Scripts.{add_to_batch}
use content_publishing_servi.Batching.Spec.{Batch}
use content_publishing_servi.Batching.Counting.{AllCounted, rows_of, add_to_batch_counts}
use content_publishing_servi.Batching.Closing.{QueueState, spec_close}
use content_publishing_servi.Batching.Closing.Rows.{read_rows, read_rows-perm}
use content_publishing_servi.Batching.Closing.Delivery.{Shows, close_batch-spec_close}
use content_publishing_servi.Batching.Closing.Jobs.{IsGrown, same-IsGrown, spec_close-IsGrown}
use content_publishing_servi.Batching.Closing.Conservation.{
  contents, holdings, delivered, AllDeleted, holdings-spec_close,
}

module _ (row_json : Codec Announcement) (config : BatchConfig) (q : String) where
  contents-rows_of : (o : Option Batch) → contents row_json o ≡ read_rows row_json (rows_of o)
  contents-rows_of none = refl
  contents-rows_of (some b) = refl

  contents_of_new_row :
      (o : Option Batch) (rows : List (String × String)) (job_id : String) (a : Announcement)
      → Perm rows ((job_id, row_json.encode a) ∷ rows_of o)
      → Perm (read_rows row_json rows) (a ∷ contents row_json o)
  contents_of_new_row o rows job_id a p =
      Perm.trans (read_rows-perm row_json _ _ p)
        (rw (row_json.decode-encode a, contents-rows_of o) Perm.rfl)

  holdings_with_row :
      (o l : Option Batch) (jobs : List BatchAnnouncerJob) (b : Batch) (job_id : String)
      (a : Announcement)
      → Perm b.rows ((job_id, row_json.encode a) ∷ rows_of o)
      → Perm
          (holdings row_json config q
            (record { open_batch = some b; locked_batch = l; jobs = jobs }))
          (a
            ∷ holdings row_json config q (record { open_batch = o; locked_batch = l; jobs = jobs }))
  holdings_with_row o l jobs b job_id a p =
      let before = delivered jobs ++ contents row_json l in
      let added : Perm (before ++ contents row_json (some b))
          (a ∷ (before ++ contents row_json o)) =
        Perm.trans (Perm.append_left before (contents_of_new_row o b.rows job_id a p))
          (perm_middle before (contents row_json o)) in
      subst₂ (λ xs ys. Perm xs (a ∷ ys))
        (append_assoc (delivered jobs) (contents row_json l) (contents row_json (some b)))
        (append_assoc (delivered jobs) (contents row_json l) (contents row_json o)) added

module _ (redis : Redis) (scheduler : Scheduler BatchTimeout) (metadata_json : Codec BatchMetadata)
    (row_json : Codec Announcement) (config : BatchConfig) (t : AnnouncementTypeDto)
    (batch_id : String) where
  abbrev q : String
  q = announcement_to_queue_name t

  -- A state that shows a queue with the same announcements as `held`, and only jobs of this type added
  abbrev ShowsSame : BatchState redis scheduler → QueueState → Type 0
  ShowsSame s held =
      (u : QueueState) × Shows redis scheduler metadata_json row_json config q s u
      × (holdings row_json config q u ≡ holdings row_json config q held)
      × IsGrown row_json config t held.jobs u.jobs

  process_reply-ShowsSame :
      (rounds : List Round) (s : BatchState redis scheduler) (held : QueueState) (count : Option ℕ)
      → AllDeleted row_json config q rounds
      → Shows redis scheduler metadata_json row_json config q s held
      → ShowsSame
          (process_reply redis scheduler metadata_json row_json config s q batch_id rounds
            (ok count)).1
          held
  unfolding process_reply add_batch_timeout
  process_reply-ShowsSame rounds s held none d h =
      (held, h, refl, same-IsGrown row_json config t held.jobs)
  process_reply-ShowsSame rounds s held (some n) d h = elim (Bool-cases (n == 1)) [
    | inl first ↦ rw first (
      held,
      record { slots = h.slots; jobs = h.jobs },
      refl,
      same-IsGrown row_json config t held.jobs,
    )
    | inr later ↦ elim (Bool-cases (leb config.batch_max_count n)) [
      | inl full ↦
          rw (later, full)
            (
              (spec_close row_json config q rounds held).1,
              (close_batch-spec_close redis scheduler metadata_json row_json config q rounds s held
                  batch_id h).1,
              holdings-spec_close row_json config q rounds held d,
              spec_close-IsGrown row_json config t rounds held,
            )
      | inr room ↦ rw (later, room) (held, h, refl, same-IsGrown row_json config t held.jobs)
    ]
  ]

  -- Processing a job that is not among the rows of the queue's open batch adds its announcement once
  -- to those of the queue, in the jobs, the locked batch or the open one, and loses and repeats none,
  -- whether the call opens a batch, joins one, or closes it, and whether it returns or throws; the
  -- jobs that are added carry the schema id of the queue's announcement type. The
  -- open batch counts its rows, and the deletions do not fail.
  pub process_adds :
      (rounds : List Round) (s : BatchState redis scheduler) (held : QueueState) (job_id : String)
      (a : Announcement) (now : ℕ)
      → AllDeleted row_json config q rounds
      → AllCounted held.open_batch
      → has_field job_id (rows_of held.open_batch) ≡ false
      → Shows redis scheduler metadata_json row_json config q s held
      → (u : QueueState) × Shows redis scheduler metadata_json row_json config q
          (process redis scheduler metadata_json row_json config rounds s q job_id a batch_id now).1
          u
        × Perm (holdings row_json config q u) (a ∷ holdings row_json config q held)
        × IsGrown row_json config t held.jobs u.jobs
  unfolding process
  process_adds rounds s held job_id a now d counted new h =
      let (b, shown, _, replied, _, joined) =
        add_to_batch_counts redis metadata_json s.db q held.open_batch held.locked_batch batch_id
          job_id (row_json.encode a) now h.slots counted in
      let db' =
        (add_to_batch redis metadata_json s.db (keys_of q)
          (metadata_json.encode (first_metadata batch_id now)) job_id (row_json.encode a)).1 in
      let after : QueueState = record {
        open_batch = some b;
        locked_batch = held.locked_batch;
        jobs = held.jobs;
      } in
      let (u, shows, same, grown) =
        process_reply-ShowsSame rounds (record s { db = db' }) after b.metadata.row_count d
          (record { slots = shown; jobs = h.jobs }) in
      rw replied (
        u,
        shows,
        subst (λ xs. Perm xs (a ∷ holdings row_json config q held)) (sym same)
            (holdings_with_row row_json config q held.open_batch held.locked_batch held.jobs b
              job_id a (joined new)),
        grown,
      )
