-- ===== src/Batching/Closing/Delivery.antt =====
-- closeBatch refines the closing of batches without Redis.
use text.Mathlib.TextPositions.{eq_refl}
use content_publishing_servi.Common.{
  String, some, List, [], ◌∷◌, ◌++◌, Bool, true, false, ◌≡◌, refl, Option-cases, inl, inr, ap, ◌*◌,
}
use content_publishing_servi.Services.Redis.{Redis, Reply}
use content_publishing_servi.Services.Codec.{Codec}
use content_publishing_servi.Services.Scheduler.{Scheduler}
use content_publishing_servi.Dsnp.{Announcement}
use content_publishing_servi.Batching.{
  BatchAnnouncerJob, BatchTimeout, BatchConfig, Round, Outcome, done, parse_rows, BatchState,
  batch_lock_expire_seconds, queue_batch, delete_locked, close_locked, close_reply, close_batch,
}
use content_publishing_servi.Batching.Metadata.{BatchMetadata, keys_of, keys_of-AreApart}
use content_publishing_servi.Batching.Scripts.{LockReply}
use content_publishing_servi.Batching.Spec.{
  Batch, LockView, nothing_open, still_locked, leftover, locked, refused,
}
use content_publishing_servi.Batching.Slots.{Represents, HoldsBatch-same}
use content_publishing_servi.Batching.Locking.{Answers, lock_batch-spec_lock}
use content_publishing_servi.Batching.Closing.{
  QueueState, spec_queue, forget_locked, spec_deliver, spec_close_view, spec_close,
}

module _ (redis : Redis) (scheduler : Scheduler BatchTimeout) (metadata_json : Codec BatchMetadata)
    (row_json : Codec Announcement) (config : BatchConfig) (q : String) where
  open redis use {Db, view, del, view-del}

  -- The service's state shows the queue's batches and the jobs.
  pub record Shows (s : BatchState redis scheduler) (t : QueueState) : Type 0 where
    pub slots : Represents redis metadata_json s.db (keys_of q) t.open_batch t.locked_batch
    pub jobs : s.jobs ≡ t.jobs

  abbrev ShowsResult : Outcome × BatchState redis scheduler → Outcome × QueueState → Type 0
  ShowsResult r t = (r.0 ≡ t.0) × Shows r.1 t.1

  -- Deleting the two locked keys leaves no locked batch.
  delete_locked-Shows :
      (s : BatchState redis scheduler) (t : QueueState) (batch_id : String) (deleted : Bool)
      → Shows s t
      → Shows
          (delete_locked redis scheduler metadata_json row_json config s q batch_id deleted)
          (forget_locked row_json config q deleted t)
  unfolding delete_locked
  delete_locked-Shows s t batch_id false h = h
  delete_locked-Shows s t batch_id true h = record {
    slots = record {
      at_open =
          HoldsBatch-same redis metadata_json s.db _ (keys_of q).metadata (keys_of q).rows
            t.open_batch (simp (view-del, (keys_of-AreApart q).km, (keys_of-AreApart q).lm))
            (simp (view-del, (keys_of-AreApart q).kr, (keys_of-AreApart q).lr)) h.slots.at_open;
      at_lock = (simp (view-del, (keys_of-AreApart q).kl, eq_refl), simp (view-del, eq_refl));
    };
    jobs = h.jobs;
  }

  module _ (round : Round) (batch_id : String)
      (next : BatchState redis scheduler → Outcome × BatchState redis scheduler)
      (next' : QueueState → Outcome × QueueState)
      (after : (s : BatchState redis scheduler) (t : QueueState)
        → Shows s t
        → ShowsResult (next s) (next' t)) where
    with_jobs :
        (s : BatchState redis scheduler) (t : QueueState) (job : BatchAnnouncerJob)
        → Shows s t
        → Shows (record s { jobs = s.jobs ++ job ∷ [] }) (record t { jobs = t.jobs ++ job ∷ [] })
    with_jobs s t job h = record { slots = h.slots; jobs = ap (λ jobs. jobs ++ job ∷ []) h.jobs }

    -- A batch whose rows are read.
    close_locked-read :
        (s : BatchState redis scheduler) (t : QueueState) (b : Batch) (raw : String)
        (announcements : List Announcement) (queued : Bool)
        → round.queued ≡ queued
        → metadata_json.decode raw ≡ some b.metadata
        → parse_rows row_json b.rows ≡ some announcements
        → Shows s t
        → ShowsResult
            (close_locked redis scheduler metadata_json row_json config s q batch_id round b.rows
              raw next)
            (spec_deliver row_json config q t round b next')
    unfolding close_locked queue_batch spec_deliver spec_queue
    close_locked-read s t b raw [] queued c d e h =
        rw (d, e, close_locked, spec_deliver)
          (after _ _ (delete_locked-Shows s t batch_id round.deleted h))
    close_locked-read s t b raw (a ∷ rest) false c d e h =
        rw (d, e, c, close_locked, spec_deliver) (refl, h)
    close_locked-read s t b raw (a ∷ rest) true c d e h =
        rw (d, e, c, close_locked, spec_deliver)
          (after _ _ (delete_locked-Shows _ _ batch_id round.deleted (with_jobs s t _ h)))

    close_locked-spec_deliver :
        (s : BatchState redis scheduler) (t : QueueState) (b : Batch) (raw : String)
        → metadata_json.decode raw ≡ some b.metadata
        → Shows s t
        → ShowsResult
            (close_locked redis scheduler metadata_json row_json config s q batch_id round b.rows
              raw next)
            (spec_deliver row_json config q t round b next')
    unfolding close_locked spec_deliver
    close_locked-spec_deliver s t b raw d h = elim (Option-cases (parse_rows row_json b.rows)) [
      | inl e ↦ rw (d, e, close_locked, spec_deliver) (refl, h)
      | inr (announcements, e) ↦ close_locked-read s t b raw announcements round.queued refl d e h
    ]

  module _ (round : Round) (batch_id : String)
      (again : BatchState redis scheduler → Outcome × BatchState redis scheduler)
      (again' : QueueState → Outcome × QueueState)
      (after : (s : BatchState redis scheduler) (t : QueueState)
        → Shows s t
        → ShowsResult (again s) (again' t)) where
    close_reply-spec_close_view :
        (s : BatchState redis scheduler) (t : QueueState) (r : Reply LockReply) (v : LockView)
        → Answers redis metadata_json r v
        → Shows s t
        → ShowsResult
            (close_reply redis scheduler metadata_json row_json config s q batch_id round r again)
            (spec_close_view row_json config q v t round again')
    unfolding close_reply spec_close_view
    close_reply-spec_close_view s t r nothing_open a h = rw a (refl, h)
    close_reply-spec_close_view s t r still_locked a h = rw a (refl, h)
    close_reply-spec_close_view s t r (refused e) a h = rw a (refl, h)
    close_reply-spec_close_view s t r (leftover b) (raw, e, d) h =
        rw e (close_locked-spec_deliver round batch_id again again' after s t b raw d h)
    close_reply-spec_close_view s t r (locked b) (raw, e, d) h = rw e (
        close_locked-spec_deliver round batch_id (λ s'. (done, s')) (λ t'. (done, t'))
          (λ s' t' h'. (refl, h')) s t b raw d h)

  -- From a state that shows the batches of the queue and the jobs, closeBatch returns or throws
  -- what the closing of batches without Redis does, in a state that shows its result.
  pub close_batch-spec_close :
      (rounds : List Round) (s : BatchState redis scheduler) (t : QueueState) (batch_id : String)
      → Shows s t
      → ((close_batch redis scheduler metadata_json row_json config rounds s q batch_id).0
          ≡ (spec_close row_json config q rounds t).0)
        × Shows
            (close_batch redis scheduler metadata_json row_json config rounds s q batch_id).1
            (spec_close row_json config q rounds t).1
  unfolding close_batch spec_close
  close_batch-spec_close [] s t batch_id h = (refl, h)
  close_batch-spec_close (round ∷ rounds) s t batch_id h =
      let (answers, slots) =
        lock_batch-spec_lock redis metadata_json (keys_of q) (keys_of-AreApart q) round.now
          (batch_lock_expire_seconds * 1000) s.db t.open_batch t.locked_batch h.slots in
      close_reply-spec_close_view round batch_id
        (λ s'. close_batch redis scheduler metadata_json row_json config rounds s' q batch_id)
        (λ t'. spec_close row_json config q rounds t')
        (λ s' t' h'. close_batch-spec_close rounds s' t' batch_id h') _ _ _ _ answers
        (record { slots = slots; jobs = h.jobs })
