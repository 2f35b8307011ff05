-- ===== src/Batching/Closing/Unread.antt =====
-- Closing batches leaves the rows that are not read where they are.
use mathlib.Core.List.{append-nil}
use content_publishing_servi.Common.{
  ℕ, String, Option, none, some, List, [], ◌∷◌, ◌++◌, Bool, true, false, ◌≡◌, refl, Option-cases,
  inl, inr, ap, sym, ◌∙◌, All, Bool-cases, ltb, ◌+◌,
}
use content_publishing_servi.Services.Codec.{Codec}
use content_publishing_servi.Dsnp.{Announcement}
use content_publishing_servi.Batching.{BatchConfig, Round, Outcome, done, parse_rows}
use content_publishing_servi.Batching.Spec.{
  Batch, LockView, nothing_open, still_locked, leftover, locked, refused, spec_lock, spec_lock_over,
}
use content_publishing_servi.Batching.Closing.{
  QueueState, spec_queue, spec_deliver, spec_close_view, spec_close,
}
use content_publishing_servi.Batching.Closing.Rows.{unread_rows, parse_rows-read_rows}

-- The batch that is handed out is the locked one.
abbrev pub HandsOut : LockView → Option Batch → Type 0
HandsOut (leftover b) l = l ≡ some b
HandsOut (locked b) l = l ≡ some b
HandsOut _ l = Unit

spec_lock_over-HandsOut :
    (l : Batch) (since : Option ℕ) (now interval : ℕ)
    → HandsOut (spec_lock_over l since now interval) (some l)
unfolding spec_lock_over
spec_lock_over-HandsOut l none now interval = tt
spec_lock_over-HandsOut l (some since) now interval =
    elim (Bool-cases (ltb (since + interval) now)) [ inl e ↦ rw e refl | inr e ↦ rw e tt ]

pub spec_lock-HandsOut :
    (o l : Option Batch) (now interval : ℕ)
    → HandsOut (spec_lock o l now interval).0 (spec_lock o l now interval).1.locked_batch
unfolding spec_lock
spec_lock-HandsOut none l now interval = tt
spec_lock-HandsOut (some b) none now interval = refl
spec_lock-HandsOut (some b) (some l) now interval =
    spec_lock_over-HandsOut l l.metadata.lock_timestamp now interval

abbrev pub unread_of : Codec Announcement → Option Batch → List String
unread_of row_json none = []
unread_of row_json (some b) = unread_rows row_json b.rows

module _ (row_json : Codec Announcement) (config : BatchConfig) (q : String) where
  -- The texts of the rows that are not read, the locked batch's and then the open batch's
  abbrev pub unread : QueueState → List String
  unread t = unread_of row_json t.locked_batch ++ unread_of row_json t.open_batch

  unread-spec_lock :
      (o l : Option Batch) (now interval : ℕ)
      → let slots = (spec_lock o l now interval).1 in
        unread_of row_json slots.locked_batch ++ unread_of row_json slots.open_batch
        ≡ unread_of row_json l ++ unread_of row_json o
  unfolding spec_lock
  unread-spec_lock none l now interval = refl
  unread-spec_lock (some b) none now interval = append-nil _
  unread-spec_lock (some b) (some l) now interval = refl

  module _ (round : Round) (deleted : round.deleted ≡ true)
      (next : QueueState → Outcome × QueueState)
      (keeps : (t : QueueState) → unread (next t).1 ≡ unread t) where
    unread-spec_deliver_read :
        (t : QueueState) (b : Batch) (announcements : List Announcement) (queued : Bool)
        → round.queued ≡ queued
        → parse_rows row_json b.rows ≡ some announcements
        → unread_of row_json t.locked_batch ≡ []
        → unread (spec_deliver row_json config q t round b next).1 ≡ unread t
    unfolding spec_deliver spec_queue
    unread-spec_deliver_read t b [] queued c e l =
        rw (e, spec_deliver)
          (keeps _ ∙ rw deleted (ap (λ xs. xs ++ unread_of row_json t.open_batch) (sym l)))
    unread-spec_deliver_read t b (a ∷ rest) false c e l = rw (e, c, spec_deliver) refl
    unread-spec_deliver_read t b (a ∷ rest) true c e l =
        rw (e, c, spec_deliver)
          (keeps _ ∙ rw deleted (ap (λ xs. xs ++ unread_of row_json t.open_batch) (sym l)))

    unread-spec_deliver :
        (t : QueueState) (b : Batch)
        → t.locked_batch ≡ some b
        → unread (spec_deliver row_json config q t round b next).1 ≡ unread t
    unfolding spec_deliver
    unread-spec_deliver t b l = elim (Option-cases (parse_rows row_json b.rows)) [
      | inl e ↦ rw (e, spec_deliver) refl
      | inr (announcements, e) ↦
          unread-spec_deliver_read t b announcements round.queued refl e
            (ap (unread_of row_json) l ∙ (parse_rows-read_rows row_json b.rows announcements e).1)
    ]

  unread-spec_close_view :
      (round : Round) (again : QueueState → Outcome × QueueState) (t : QueueState) (v : LockView)
      → round.deleted ≡ true
      → ((u : QueueState) → unread (again u).1 ≡ unread u)
      → HandsOut v t.locked_batch
      → unread (spec_close_view row_json config q v t round again).1 ≡ unread t
  unfolding spec_close_view
  unread-spec_close_view round again t nothing_open d keeps h = refl
  unread-spec_close_view round again t still_locked d keeps h = refl
  unread-spec_close_view round again t (refused e) d keeps h = refl
  unread-spec_close_view round again t (leftover b) d keeps h =
      unread-spec_deliver round d again keeps t b h
  unread-spec_close_view round again t (locked b) d keeps h =
      unread-spec_deliver round d (λ u. (done, u)) (λ u. refl) t b h

  pub unread-spec_close :
      (rounds : List Round) (t : QueueState)
      → All (λ (round : Round). round.deleted ≡ true) rounds
      → unread (spec_close row_json config q rounds t).1 ≡ unread t
  unfolding spec_close
  unread-spec_close [] t d = refl
  unread-spec_close (round ∷ rounds) t (d, ds) =
      unread-spec_close_view round _ _ _ d (λ u. unread-spec_close rounds u ds)
        (spec_lock-HandsOut t.open_batch t.locked_batch round.now _)
      ∙ unread-spec_lock t.open_batch t.locked_batch round.now _
