-- ===== src/Services/Scheduler.antt =====
-- The scheduler registry of the framework: a parameter of the model, a set of named timeouts.
use content_publishing_servi.Common.{String, ◌≡◌, Option, none, some, ◌==ₛ◌, if◌then◌else◌}

pub record Scheduler (Timeout : Type 0) : Type 1 where
  pub Timers : Type 0
  -- doesExist and the handler that is registered
  pub find : Timers → String → Option Timeout
  -- deleteTimeout of a name that exists; it stops the timeout too
  pub delete_timeout : Timers → String → Timers
  -- addTimeout of a name that is free
  pub add_timeout : Timers → String → Timeout → Timers
  pub find-delete_timeout :
      (ts : Timers) (n m : String)
      → find (delete_timeout ts n) m ≡ (if n ==ₛ m then none else find ts m)
  pub find-add_timeout :
      (ts : Timers) (n : String) (t : Timeout) (m : String)
      → find ts n ≡ none
      → find (add_timeout ts n t) m ≡ (if n ==ₛ m then some t else find ts m)
