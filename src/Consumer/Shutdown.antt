-- ===== src/Consumer/Shutdown.antt =====
-- What is true of the jobs that BaseConsumer of apps/worker/src/BaseConsumer.ts tracks, and of its
-- shutdown.
use mathlib.Core.Path.{subst}
use content_publishing_servi.Common.{
  ℕ, zero, suc, ◌+◌, ◌-◌, ◌*◌, ◌/◌, ◌≤◌, ◌<◌, String, List, [], ◌∷◌, Bool, true, false, ◌==ₛ◌, ◌||◌,
  ltb, ◌&&◌, if◌then◌else◌, length, ◌≡◌, ◌⊎◌, refl, sym, ◌∙◌, ap, inl, inr, Bool-cases, eq_iff,
  arith,
}
use content_publishing_servi.Consumer.{
  has, track_job, un_track_job, WorkerEvent, active, completed, job_failed, on_event, on_events,
  wait_for_jobs, Closing, closes, close_fails, never_closes, ShutdownEnd, returned, threw, pending,
  on_module_destroy,
}

-- The loop ended for want of time or of jobs.
abbrev Ended : ℕ → ℕ × List String → Type 0
Ended max_wait_ms (waited, left) =
    (waited ≤ (max_wait_ms + 299) / 300 * 300) × ((left ≡ []) ⊎ (max_wait_ms ≤ waited))

more-time : (n max_wait_ms : ℕ) → ltb 0 (suc n) && ltb 0 max_wait_ms ≡ true → 0 < max_wait_ms
more-time n max_wait_ms e = ground (arith, e)

no-time : (n max_wait_ms : ℕ) → ltb 0 (suc n) && ltb 0 max_wait_ms ≡ false → max_wait_ms ≤ 0
no-time n max_wait_ms e = ground (arith, e)

later-bound :
    (max_wait_ms waited : ℕ)
    → 0 < max_wait_ms
    → waited ≤ (max_wait_ms - 300 + 299) / 300 * 300
    → 300 + waited ≤ (max_wait_ms + 299) / 300 * 300
later-bound max_wait_ms waited p h = omega arith

round-Ended :
    (actives : List String) (max_wait_ms : ℕ) (rest : ℕ × List String)
    → Ended (max_wait_ms - 300) rest
    → Ended max_wait_ms (
        if ltb 0 (length actives) && ltb 0 max_wait_ms
        then (300 + rest.0, rest.1)
        else (0, actives))
round-Ended [] max_wait_ms rest h = (omega arith, inl refl)
round-Ended (a ∷ actives) max_wait_ms (waited, left) (below, ended) =
    elim (Bool-cases (ltb 0 (length (a ∷ actives)) && ltb 0 max_wait_ms)) [
      | inl e ↦ rw e (
        later-bound max_wait_ms waited (more-time _ max_wait_ms e) below,
        elim ended [ inl done ↦ inl done | inr late ↦ inr (omega arith) ],
      )
      | inr e ↦ rw e (omega arith, inr (no-time _ max_wait_ms e))
    ]

wait_for_jobs-Ended :
    (fuel : ℕ) (events : List (List WorkerEvent)) (actives : List String) (max_wait_ms : ℕ)
    → max_wait_ms ≤ fuel * 300
    → Ended max_wait_ms (wait_for_jobs fuel events actives max_wait_ms)
unfolding wait_for_jobs
wait_for_jobs-Ended zero events actives max_wait_ms h = (omega arith, inr (omega arith))
wait_for_jobs-Ended (suc fuel) [] actives max_wait_ms h =
    round-Ended actives max_wait_ms _
      (wait_for_jobs-Ended fuel [] actives (max_wait_ms - 300) (omega arith))
wait_for_jobs-Ended (suc fuel) (now ∷ later) actives max_wait_ms h =
    round-Ended actives max_wait_ms _
      (wait_for_jobs-Ended fuel later (on_events actives now) (max_wait_ms - 300) (omega arith))

-- Without active jobs the loop does not wait.
wait_for_jobs-nil :
    (fuel : ℕ) (events : List (List WorkerEvent)) (max_wait_ms : ℕ)
    → wait_for_jobs fuel events [] max_wait_ms ≡ (0, [])
unfolding wait_for_jobs
wait_for_jobs-nil zero events max_wait_ms = refl
wait_for_jobs-nil (suc fuel) [] max_wait_ms = refl
wait_for_jobs-nil (suc fuel) (now ∷ later) max_wait_ms = refl

-- How a shutdown ends, from how its worker closes
abbrev pub EndsAfter : Closing → List String → ShutdownEnd → Type 0
EndsAfter (closes ms events) actives result =
    (waited : ℕ) × ((left : List String) × (result ≡ returned (ms + waited) left)
      × (waited ≤ 6000)
      × ((left ≡ []) ⊎ (6000 ≤ waited))
      × (on_events actives events ≡ [] → waited ≡ 0))
EndsAfter close_fails actives result = result ≡ threw
EndsAfter never_closes actives result = result ≡ pending

-- The shutdown returns exactly if the worker closes. After the time that this takes it waits for at
-- most 6 seconds, for less only if no job is left, and not at all if none is active by then.
pub on_module_destroy-EndsAfter :
    (closing : Closing) (later : List (List WorkerEvent)) (actives : List String)
    → EndsAfter closing actives (on_module_destroy closing later actives)
unfolding on_module_destroy
on_module_destroy-EndsAfter (closes ms events) later actives =
    let (short, over) =
      wait_for_jobs-Ended 6000 later (on_events actives events) 6000 (omega arith) in
    let waited = wait_for_jobs 6000 later (on_events actives events) 6000 in
    (
      waited.0,
      (
        waited.1,
        refl,
        short,
        over,
        λ none_active.
            ap (λ xs. (wait_for_jobs 6000 later xs 6000).0) none_active
            ∙ ap (λ w. w.0) (wait_for_jobs-nil 6000 later 6000),
      ),
    )
on_module_destroy-EndsAfter close_fails later actives = refl
on_module_destroy-EndsAfter never_closes later actives = refl

-- Whether a job runs, from the events that concern it alone
unfoldable pub running : String → Bool → List WorkerEvent → Bool
running job_id now [] = now
running job_id now (active id ∷ rest) = running job_id (if id ==ₛ job_id then true else now) rest
running job_id now (completed id ∷ rest) =
    running job_id (if id ==ₛ job_id then false else now) rest
running job_id now (job_failed id ∷ rest) =
    running job_id (if id ==ₛ job_id then false else now) rest

has-track_job :
    (actives : List String) (id job_id : String)
    → has job_id (track_job actives id) ≡ (if id ==ₛ job_id then true else has job_id actives)
unfolding track_job has
has-track_job actives id job_id = elim (Bool-cases (has id actives)) [
  | inl e ↦ elim (Bool-cases (id ==ₛ job_id)) [
    | inl s ↦ rw (e, s) (subst (λ j. has j actives ≡ true) ((eq_iff id job_id).0 s) e)
    | inr s ↦ rw (e, s) refl
  ]
  | inr e ↦ elim (Bool-cases (id ==ₛ job_id)) [ inl s ↦ rw (e, s) refl | inr s ↦ rw (e, s) refl ]
]

has-un_track_job :
    (actives : List String) (id job_id : String)
    → has job_id (un_track_job actives id) ≡ (if id ==ₛ job_id then false else has job_id actives)
unfolding un_track_job has
has-un_track_job [] id job_id = elim (Bool-cases (id ==ₛ job_id)) [
  | inl s ↦ rw s refl
  | inr s ↦ rw s refl
]
has-un_track_job (a ∷ rest) id job_id =
    let others = has-un_track_job rest id job_id in
    elim (Bool-cases (a ==ₛ id)) [
      | inl e ↦ elim (Bool-cases (id ==ₛ job_id)) [
        | inl s ↦ rw (e, s) (rw s at others)
        | inr s ↦
            rw (e, s, subst (λ t. (t ==ₛ job_id) ≡ false) (sym ((eq_iff a id).0 e)) s)
              (rw s at others)
      ]
      | inr e ↦ elim (Bool-cases (id ==ₛ job_id)) [
        | inl s ↦
            rw (e, s, subst (λ t. (a ==ₛ t) ≡ false) ((eq_iff id job_id).0 s) e) (rw s at others)
        | inr s ↦ rw (e, s) (ap (λ b. a ==ₛ job_id || b) (rw s at others))
      ]
    ]

-- A job is among the active ones exactly if it was the last time that an event concerned it, or from
-- the start if none does; the events of other jobs do not matter.
pub on_events-has :
    (actives : List String) (events : List WorkerEvent) (job_id : String)
    → has job_id (on_events actives events) ≡ running job_id (has job_id actives) events
unfolding on_events running on_event
on_events-has actives [] job_id = refl
on_events-has actives (active id ∷ rest) job_id =
    on_events-has (track_job actives id) rest job_id
    ∙ ap (λ b. running job_id b rest) (has-track_job actives id job_id)
on_events-has actives (completed id ∷ rest) job_id =
    on_events-has (un_track_job actives id) rest job_id
    ∙ ap (λ b. running job_id b rest) (has-un_track_job actives id job_id)
on_events-has actives (job_failed id ∷ rest) job_id =
    on_events-has (un_track_job actives id) rest job_id
    ∙ ap (λ b. running job_id b rest) (has-un_track_job actives id job_id)
