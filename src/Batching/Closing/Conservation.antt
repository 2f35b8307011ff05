-- ===== src/Batching/Closing/Conservation.antt =====
-- Closing batches neither loses nor repeats nor reorders an announcement.
use mathlib.Core.List.{append_assoc, append-nil}
use content_publishing_servi.Common.{
  ℕ, String, Option, none, some, List, [], ◌∷◌, ◌++◌, Bool, true, false, ◌≡◌, refl, Option-cases,
  inl, inr, ap, sym, ◌∙◌, All,
}
use content_publishing_servi.Services.Redis.{Redis}
use content_publishing_servi.Services.Codec.{Codec}
use content_publishing_servi.Services.Scheduler.{Scheduler}
use content_publishing_servi.Dsnp.{Announcement}
use content_publishing_servi.Batching.{
  BatchAnnouncerJob, BatchTimeout, BatchConfig, Round, Outcome, done, parse_rows, BatchState,
  close_batch,
}
use content_publishing_servi.Batching.Metadata.{BatchMetadata}
use content_publishing_servi.Batching.Spec.{
  Batch, LockView, nothing_open, still_locked, leftover, locked, refused, spec_lock,
}
use content_publishing_servi.Batching.Closing.{
  QueueState, job_of, spec_queue, spec_deliver, spec_close_view, spec_close,
}
use content_publishing_servi.Batching.Closing.Rows.{read_rows, parse_rows-read_rows}
use content_publishing_servi.Batching.Closing.Unread.{
  HandsOut, spec_lock-HandsOut, unread, unread-spec_close,
}
use content_publishing_servi.Batching.Closing.Delivery.{Shows, close_batch-spec_close}

-- The announcements of the jobs, in their order.
abbrev pub delivered : List BatchAnnouncerJob → List Announcement
delivered [] = []
delivered (job ∷ jobs) = job.announcements ++ delivered jobs

delivered-append :
    (jobs : List BatchAnnouncerJob) (job : BatchAnnouncerJob)
    → delivered (jobs ++ job ∷ []) ≡ delivered jobs ++ job.announcements
delivered-append [] job = append-nil job.announcements
delivered-append (j ∷ jobs) job =
    rw (delivered-append jobs job)
      (sym (append_assoc j.announcements (delivered jobs) job.announcements))

-- The announcements of a batch: those of its rows that are read, also where another row is not.
abbrev pub contents : Codec Announcement → Option Batch → List Announcement
contents row_json none = []
contents row_json (some b) = read_rows row_json b.rows

module _ (row_json : Codec Announcement) (config : BatchConfig) (q : String) where
  -- All announcements of a queue: the delivered ones, the locked batch's and the open batch's.
  abbrev pub holdings : QueueState → List Announcement
  holdings t =
      delivered t.jobs ++ (contents row_json t.locked_batch ++ contents row_json t.open_batch)

  contents-spec_lock :
      (o l : Option Batch) (now interval : ℕ)
      → let slots = (spec_lock o l now interval).1 in
        contents row_json slots.locked_batch ++ contents row_json slots.open_batch
        ≡ contents row_json l ++ contents row_json o
  unfolding spec_lock
  contents-spec_lock none l now interval = refl
  contents-spec_lock (some b) none now interval = append-nil _
  contents-spec_lock (some b) (some l) now interval = refl

  -- The batch that is delivered leaves the lock as its job joins the queue.
  forget-holdings :
      (t : QueueState) (announcements : List Announcement) (jobs : List BatchAnnouncerJob)
      → contents row_json t.locked_batch ≡ announcements
      → delivered jobs ≡ delivered t.jobs ++ announcements
      → delivered jobs ++ contents row_json t.open_batch ≡ holdings t
  forget-holdings t announcements jobs c d =
      ap (λ l. l ++ contents row_json t.open_batch) d
      ∙ append_assoc (delivered t.jobs) announcements (contents row_json t.open_batch)
      ∙ ap (λ l. delivered t.jobs ++ (l ++ contents row_json t.open_batch)) (sym c)

  module _ (round : Round) (deleted : round.deleted ≡ true)
      (next : QueueState → Outcome × QueueState)
      (keeps : (t : QueueState) → holdings (next t).1 ≡ holdings t) where
    holdings-spec_deliver_read :
        (t : QueueState) (b : Batch) (announcements : List Announcement) (queued : Bool)
        → round.queued ≡ queued
        → parse_rows row_json b.rows ≡ some announcements
        → contents row_json t.locked_batch ≡ announcements
        → holdings (spec_deliver row_json config q t round b next).1 ≡ holdings t
    unfolding spec_deliver spec_queue
    holdings-spec_deliver_read t b [] queued c e l =
        rw (e, spec_deliver)
          (keeps _
            ∙ rw deleted (forget-holdings t [] t.jobs l (sym (append-nil (delivered t.jobs)))))
    holdings-spec_deliver_read t b (a ∷ rest) false c e l = rw (e, c, spec_deliver) refl
    holdings-spec_deliver_read t b (a ∷ rest) true c e l =
        rw (e, c, spec_deliver)
          (keeps _
            ∙ rw deleted (
                forget-holdings t (a ∷ rest) (t.jobs ++ job_of row_json config q b (a ∷ rest) ∷ [])
                  l (delivered-append t.jobs (job_of row_json config q b (a ∷ rest)))))

    holdings-spec_deliver :
        (t : QueueState) (b : Batch)
        → t.locked_batch ≡ some b
        → holdings (spec_deliver row_json config q t round b next).1 ≡ holdings t
    unfolding spec_deliver
    holdings-spec_deliver t b l = elim (Option-cases (parse_rows row_json b.rows)) [
      | inl e ↦ rw (e, spec_deliver) refl
      | inr (announcements, e) ↦
          holdings-spec_deliver_read t b announcements round.queued refl e
            (ap (contents row_json) l ∙ (parse_rows-read_rows row_json b.rows announcements e).0)
    ]

  holdings-spec_close_view :
      (round : Round) (again : QueueState → Outcome × QueueState) (t : QueueState) (v : LockView)
      → round.deleted ≡ true
      → ((u : QueueState) → holdings (again u).1 ≡ holdings u)
      → HandsOut v t.locked_batch
      → holdings (spec_close_view row_json config q v t round again).1 ≡ holdings t
  unfolding spec_close_view
  holdings-spec_close_view round again t nothing_open d keeps h = refl
  holdings-spec_close_view round again t still_locked d keeps h = refl
  holdings-spec_close_view round again t (refused e) d keeps h = refl
  holdings-spec_close_view round again t (leftover b) d keeps h =
      holdings-spec_deliver round d again keeps t b h
  holdings-spec_close_view round again t (locked b) d keeps h =
      holdings-spec_deliver round d (λ u. (done, u)) (λ u. refl) t b h

  abbrev pub AllDeleted : List Round → Type 0
  AllDeleted rounds = All (λ (round : Round). round.deleted ≡ true) rounds

  pub holdings-spec_close :
      (rounds : List Round) (t : QueueState)
      → AllDeleted rounds
      → holdings (spec_close row_json config q rounds t).1 ≡ holdings t
  unfolding spec_close
  holdings-spec_close [] t d = refl
  holdings-spec_close (round ∷ rounds) t (d, ds) =
      holdings-spec_close_view round _ _ _ d (λ u. holdings-spec_close rounds u ds)
        (spec_lock-HandsOut t.open_batch t.locked_batch round.now _)
      ∙ ap (λ l. delivered t.jobs ++ l) (contents-spec_lock t.open_batch t.locked_batch round.now _)

module _ (redis : Redis) (scheduler : Scheduler BatchTimeout) (metadata_json : Codec BatchMetadata)
    (row_json : Codec Announcement) (config : BatchConfig) (q : String) where
  -- Where the deletion of the locked keys does not fail, closeBatch, whether it returns or throws,
  -- leaves every announcement of the queue in exactly one place: the accepted adds to the batch
  -- queue, then the rows of the locked batch, then those of the open one, hold in this order the
  -- announcements that they held before, also where a batch has rows that are not read; and the
  -- texts of the rows that are not read stay, in their order, in the two batches.
  pub close_batch_conserves :
      (rounds : List Round) (s : BatchState redis scheduler) (t : QueueState) (batch_id : String)
      → AllDeleted row_json config q rounds
      → Shows redis scheduler metadata_json row_json config q s t
      → (u : QueueState) × Shows redis scheduler metadata_json row_json config q
          (close_batch redis scheduler metadata_json row_json config rounds s q batch_id).1
          u
        × (holdings row_json config q u ≡ holdings row_json config q t)
        × (unread row_json config q u ≡ unread row_json config q t)
  close_batch_conserves rounds s t batch_id d h = (
    (spec_close row_json config q rounds t).1,
    (close_batch-spec_close redis scheduler metadata_json row_json config q rounds s t batch_id
        h).1,
    holdings-spec_close row_json config q rounds t d,
    unread-spec_close row_json config q rounds t d,
  )
