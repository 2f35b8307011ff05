-- ===== src/Consumer.antt =====
-- BaseConsumer of apps/worker/src/BaseConsumer.ts: the jobs that a worker runs, and its shutdown.
pub mod Shutdown
mod Tests
use content_publishing_servi.Common.{
  ℕ, zero, suc, ◌+◌, ◌-◌, String, List, [], ◌∷◌, Bool, true, false, ◌==ₛ◌, ◌||◌, ltb, ◌&&◌, ◌*◌,
  if◌then◌else◌, length,
}

-- Set.has, Set.add and Set.delete; the members in some order, each once
unfoldable pub has : String → List String → Bool
has job_id [] = false
has job_id (active ∷ rest) = active ==ₛ job_id || has job_id rest

unfoldable pub track_job : List String → String → List String
unfolding has
track_job actives job_id = if has job_id actives then actives else job_id ∷ actives

unfoldable pub un_track_job : List String → String → List String
un_track_job [] job_id = []
un_track_job (active ∷ rest) job_id =
    let others = un_track_job rest job_id in if active ==ₛ job_id then others else active ∷ others

-- The worker's events, each of which calls one of the two
pub data WorkerEvent : Type 0 where
  active : String → WorkerEvent
  completed : String → WorkerEvent
  job_failed : String → WorkerEvent

unfoldable pub on_event : List String → WorkerEvent → List String
unfolding track_job un_track_job
on_event actives (active job_id) = track_job actives job_id
on_event actives (completed job_id) = un_track_job actives job_id
on_event actives (job_failed job_id) = un_track_job actives job_id

unfoldable pub on_events : List String → List WorkerEvent → List String
unfolding on_event
on_events actives [] = actives
on_events actives (e ∷ rest) = on_events (on_event actives e) rest

abbrev pub max_wait_for_grace_full_shutdown_ms : ℕ
max_wait_for_grace_full_shutdown_ms = 6 * 1000

abbrev pub delay_to_check_for_shutdown_ms : ℕ
delay_to_check_for_shutdown_ms = 300

-- The loop of onModuleDestroy. The events that happen in each of its delays are given, and none
-- after the last ones; it answers the milliseconds that it has waited and the jobs that are left. A
-- wait that would be below 0 ends the loop as 0 does. The fuel counts the rounds.
unfoldable pub wait_for_jobs : ℕ → List (List WorkerEvent) → List String → ℕ → ℕ × List String
unfolding on_events
wait_for_jobs zero events actives max_wait_ms = (0, actives)
wait_for_jobs (suc fuel) [] actives max_wait_ms =
    let rest = wait_for_jobs fuel [] actives (max_wait_ms - delay_to_check_for_shutdown_ms) in
    if ltb 0 (length actives) && ltb 0 max_wait_ms
    then (delay_to_check_for_shutdown_ms + rest.0, rest.1)
    else (0, actives)
wait_for_jobs (suc fuel) (now ∷ later) actives max_wait_ms =
    let rest =
      wait_for_jobs fuel later (on_events actives now)
        (max_wait_ms - delay_to_check_for_shutdown_ms) in
    if ltb 0 (length actives) && ltb 0 max_wait_ms
    then (delay_to_check_for_shutdown_ms + rest.0, rest.1)
    else (0, actives)

-- What worker.close(false) does, which waits for the jobs that run and takes no others: it closes
-- after some milliseconds, in which the events happen, or it is rejected, or a job never ends. A
-- service without a worker closes at once.
pub data Closing : Type 0 where
  closes : ℕ → List WorkerEvent → Closing
  close_fails : Closing
  never_closes : Closing

-- How onModuleDestroy ends: it returns, with the milliseconds that it took and the jobs that are left,
-- or it throws, or it waits for ever.
pub data ShutdownEnd : Type 0 where
  returned : ℕ → List String → ShutdownEnd
  threw : ShutdownEnd
  pending : ShutdownEnd

-- onModuleDestroy; the later events are those of the delays of its loop.
unfoldable pub on_module_destroy : Closing → List (List WorkerEvent) → List String → ShutdownEnd
unfolding wait_for_jobs on_events
on_module_destroy (closes ms events) later actives =
    let waited =
      wait_for_jobs max_wait_for_grace_full_shutdown_ms later (on_events actives events)
        max_wait_for_grace_full_shutdown_ms in
    returned (ms + waited.0) waited.1
on_module_destroy close_fails later actives = threw
on_module_destroy never_closes later actives = pending
