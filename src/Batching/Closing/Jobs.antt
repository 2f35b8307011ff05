-- ===== src/Batching/Closing/Jobs.antt =====
-- Which jobs the closing of a queue's batches adds to the batch queue.
use mathlib.Core.List.{append_assoc, append-nil}
use mathlib.Core.Path.{subst}
use mathlib.Core.Option.{some-injective, none-ne-some}
use content_publishing_servi.Common.{
  ℕ, String, Option, none, some, List, [], ◌∷◌, ◌++◌, Bool, true, false, ◌≡◌, refl, ◌∙◌, sym, ap,
  Option-cases, inl, inr, All,
}
use content_publishing_servi.Services.Codec.{Codec}
use content_publishing_servi.Queues.{AnnouncementTypeDto, announcement_to_queue_name, get_schema_id}
use content_publishing_servi.Queues.Schemas.{queue_names_inverse}
use content_publishing_servi.Dsnp.{Announcement}
use content_publishing_servi.Batching.{
  BatchAnnouncerJob, BatchConfig, Round, Outcome, done, parse_rows,
}
use content_publishing_servi.Batching.Spec.{
  Batch, LockView, nothing_open, still_locked, leftover, locked, refused, spec_lock,
}
use content_publishing_servi.Batching.Closing.{
  QueueState, job_of, spec_queue, forget_locked, spec_deliver, spec_close_view, spec_close,
  with_slots,
}

module _ (row_json : Codec Announcement) (config : BatchConfig) (t : AnnouncementTypeDto) where
  -- The jobs that were added carry the schema id of the type.
  abbrev pub HaveSchema : List BatchAnnouncerJob → Type 0
  HaveSchema new =
      All (λ (job : BatchAnnouncerJob). job.schema_id ≡ some (get_schema_id config.environment t))
        new

  pub record IsGrown (jobs jobs' : List BatchAnnouncerJob) : Type 0 where
    pub new : List BatchAnnouncerJob
    pub appended : jobs' ≡ jobs ++ new
    pub schemas : HaveSchema new

  pub same-IsGrown : (jobs : List BatchAnnouncerJob) → IsGrown jobs jobs
  same-IsGrown jobs = record { new = []; appended = sym (append-nil jobs); schemas = tt }

  HaveSchema-append :
      (xs ys : List BatchAnnouncerJob) → HaveSchema xs → HaveSchema ys → HaveSchema (xs ++ ys)
  HaveSchema-append [] ys hx hy = hy
  HaveSchema-append (x ∷ xs) ys (h, hs) hy = (h, HaveSchema-append xs ys hs hy)

  trans-IsGrown :
      (jobs jobs' jobs'' : List BatchAnnouncerJob)
      → IsGrown jobs jobs'
      → IsGrown jobs' jobs''
      → IsGrown jobs jobs''
  trans-IsGrown jobs jobs' jobs'' g h = record {
    new = g.new ++ h.new;
    appended = h.appended ∙ ap (λ xs. xs ++ h.new) g.appended ∙ append_assoc jobs g.new h.new;
    schemas = HaveSchema-append g.new h.new g.schemas h.schemas;
  }

  abbrev q : String
  q = announcement_to_queue_name t

  abbrev schema_of : Option AnnouncementTypeDto → Option ℕ
  schema_of o = elim o [
    | none ↦ none
    | some announcement_type ↦ some (get_schema_id config.environment announcement_type)
  ]

  spec_queue-IsGrown :
      (jobs jobs' : List BatchAnnouncerJob) (queued : Bool) (b : Batch) (read : List Announcement)
      → spec_queue row_json config q jobs queued b read ≡ some jobs'
      → IsGrown jobs jobs'
  unfolding spec_queue
  spec_queue-IsGrown jobs jobs' queued b [] e =
      subst (IsGrown jobs) (some-injective _ _ e) (same-IsGrown jobs)
  spec_queue-IsGrown jobs jobs' false b (a ∷ rest) e = absurd (none-ne-some jobs' e)
  spec_queue-IsGrown jobs jobs' true b (a ∷ rest) e =
      subst (IsGrown jobs) (some-injective _ _ e) (record {
        new = job_of row_json config q b (a ∷ rest) ∷ [];
        appended = refl;
        schemas = (ap schema_of ((queue_names_inverse q t).1 refl), tt);
      })

  module _ (round : Round) (next : QueueState → Outcome × QueueState)
      (grows : (s : QueueState) → IsGrown s.jobs (next s).1.jobs) where
    forget_locked-IsGrown :
        (deleted : Bool) (s : QueueState)
        → IsGrown s.jobs (next (forget_locked row_json config q deleted s)).1.jobs
    forget_locked-IsGrown true s = grows (record s { locked_batch = none })
    forget_locked-IsGrown false s = grows s

    spec_deliver-IsGrown :
        (s : QueueState) (b : Batch)
        → IsGrown s.jobs (spec_deliver row_json config q s round b next).1.jobs
    unfolding spec_deliver
    spec_deliver-IsGrown s b = elim (Option-cases (parse_rows row_json b.rows)) [
      | inl e ↦ rw (e, spec_deliver) (same-IsGrown s.jobs)
      | inr (read, e) ↦
          elim (Option-cases (spec_queue row_json config q s.jobs round.queued b read)) [
            | inl c ↦ rw (e, c, spec_deliver) (same-IsGrown s.jobs)
            | inr (jobs, c) ↦
                rw (e, c, spec_deliver)
                  (trans-IsGrown s.jobs jobs _
                    (spec_queue-IsGrown s.jobs jobs round.queued b read c)
                    (forget_locked-IsGrown round.deleted (record s { jobs = jobs })))
          ]
    ]

  spec_close_view-IsGrown :
      (round : Round) (again : QueueState → Outcome × QueueState) (s : QueueState) (v : LockView)
      → ((u : QueueState) → IsGrown u.jobs (again u).1.jobs)
      → IsGrown s.jobs (spec_close_view row_json config q v s round again).1.jobs
  unfolding spec_close_view
  spec_close_view-IsGrown round again s nothing_open grows = same-IsGrown s.jobs
  spec_close_view-IsGrown round again s still_locked grows = same-IsGrown s.jobs
  spec_close_view-IsGrown round again s (refused e) grows = same-IsGrown s.jobs
  spec_close_view-IsGrown round again s (leftover b) grows =
      spec_deliver-IsGrown round again grows s b
  spec_close_view-IsGrown round again s (locked b) grows =
      spec_deliver-IsGrown round (λ u. (done, u)) (λ u. same-IsGrown u.jobs) s b

  -- Closing the batches of a type's queue adds jobs with the schema id of the type only.
  pub spec_close-IsGrown :
      (rounds : List Round) (s : QueueState)
      → IsGrown s.jobs (spec_close row_json config q rounds s).1.jobs
  unfolding spec_close
  spec_close-IsGrown [] s = same-IsGrown s.jobs
  spec_close-IsGrown (round ∷ rounds) s =
      spec_close_view-IsGrown round (λ u. spec_close row_json config q rounds u)
        (with_slots row_json config q s (spec_lock s.open_batch s.locked_batch round.now _).1) _
        (λ u. spec_close-IsGrown rounds u)
