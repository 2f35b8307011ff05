-- ===== src/Publisher/Lifecycle.antt =====
-- The start and the end of the services that know the timeout of the epoch's end:
-- onApplicationBootstrap and onModuleDestroy of publishing.service.ts, and onModuleDestroy of
-- batch.announcer.service.ts.
use content_publishing_servi.Common.{ℕ, String, Option, none, List, Bool, ◌≡◌}
use content_publishing_servi.Services.Redis.{Redis}
use content_publishing_servi.Services.Scheduler.{Scheduler}
use content_publishing_servi.Blockchain.Capacity.{CapacityInfo}
use content_publishing_servi.Consumer.{WorkerEvent, Closing, ShutdownEnd, on_module_destroy}
use content_publishing_servi.Publisher.{
  CapacityLimit, State, capacity_epoch_timeout_name, delete_epoch_timeout, check_capacity,
}

module _ (redis : Redis) (scheduler : Scheduler ℕ) where
  unfoldable pub on_application_bootstrap :
      CapacityLimit
      → State redis scheduler
      → Option CapacityInfo
      → Option CapacityInfo
      → State redis scheduler × Bool
  unfolding check_capacity
  on_application_bootstrap limit st now later = check_capacity redis scheduler limit st now later

  -- deleteTimeout of a name that is free throws, which is caught
  unfoldable pub forget_epoch_timeout : State redis scheduler → State redis scheduler
  unfolding delete_epoch_timeout
  forget_epoch_timeout st =
      delete_epoch_timeout redis scheduler st (scheduler.find st.timers capacity_epoch_timeout_name)

  -- onModuleDestroy of PublishingService: the jobs that run until the worker is closed, and the
  -- handlers that they have called, go on after the deletion, and change the state as `meanwhile` does.
  unfoldable pub destroy_publisher :
      (State redis scheduler → State redis scheduler)
      → State redis scheduler
      → Closing
      → List (List WorkerEvent)
      → List String
      → State redis scheduler × ShutdownEnd
  unfolding forget_epoch_timeout on_module_destroy
  destroy_publisher meanwhile st closing later actives =
      (meanwhile (forget_epoch_timeout st), on_module_destroy closing later actives)

  -- onModuleDestroy of BatchAnnouncementService, on the registry that it shares with the publisher
  unfoldable pub destroy_announcer :
      (State redis scheduler → State redis scheduler)
      → State redis scheduler
      → Closing
      → List (List WorkerEvent)
      → List String
      → State redis scheduler × ShutdownEnd
  unfolding forget_epoch_timeout on_module_destroy
  destroy_announcer meanwhile st closing later actives =
      (meanwhile (forget_epoch_timeout st), on_module_destroy closing later actives)

  -- No timeout of the epoch's end is registered.
  abbrev pub IsForgotten : State redis scheduler → Type 0
  IsForgotten st = scheduler.find st.timers capacity_epoch_timeout_name ≡ none
