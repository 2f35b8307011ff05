-- ===== src/Batching/Workers/Tests.antt =====
-- The start of the six workers where one queue has an open batch, on services that are plain functions.
use content_publishing_servi.Common.{
  ℕ, none, some, List, [], ◌∷◌, ◌++◌, true, ◌≡◌, refl, arith, All, ◌≢◌,
}
use content_publishing_servi.Services.Redis.{string, hash}
use content_publishing_servi.Services.Memory.{memory, put, empty_store, no_timers, memory_scheduler}
use content_publishing_servi.Queues.{
  dev, AnnouncementTypeDto, broadcast, reply, reaction, update, tombstone, profile,
  announcement_to_queue_name,
}
use content_publishing_servi.Batching.{BatchTimeout, BatchConfig, BatchState, first_metadata}
use content_publishing_servi.Batching.Metadata.{
  keys_of, get_batch_data_key, get_batch_metadata_key, get_lock_key,
}
use content_publishing_servi.Batching.Spec.{Batch}
use content_publishing_servi.Batching.Slots.{Represents}
use content_publishing_servi.Batching.Instances.{metadata_codec, announcement_codec}
use content_publishing_servi.Batching.Workers.Startup.{
  Start, Holds, remaining, start_all, start_all_watches,
}

abbrev config : BatchConfig
config = record { environment = dev; batch_interval_seconds = 12; batch_max_count = 100 }

abbrev start_of : AnnouncementTypeDto → ℕ → Start
start_of t now = record {
  started = t;
  rounds = record { now = now; queued = true; deleted = true } ∷ [];
  now = now;
}

abbrev profiles : Batch
profiles = record { metadata = first_metadata "b1" 1000; rows = ("a", "row") ∷ [] }

abbrev restarted : BatchState memory (memory_scheduler BatchTimeout)
restarted = record {
  db =
      put
        (put empty_store (get_batch_metadata_key "profileQueue")
          (string (metadata_codec.encode (first_metadata "b1" 1000))))
        (get_batch_data_key "profileQueue") (hash (("a", "row") ∷ []));
  jobs = [];
  timers = no_timers;
}

abbrev earlier : List Start
earlier = start_of broadcast 2000 ∷ start_of reply 2001 ∷ start_of update 2002 ∷ []

abbrev later : List Start
later = start_of reaction 2004 ∷ start_of tombstone 2005 ∷ []

restarted-Represents :
    Represents memory metadata_codec restarted.db
      (keys_of (announcement_to_queue_name profile))
      (some profiles)
      none
unfolding get_batch_data_key get_batch_metadata_key get_lock_key announcement_to_queue_name
    metadata_codec
restarted-Represents = record { at_open = (_, refl, refl, refl); at_lock = (refl, refl) }

no_blank_metadata : metadata_codec.decode "" ≡ none
unfolding metadata_codec
no_blank_metadata = refl

no_profile_earlier : All (λ (y : Start). y.started ≢ profile) earlier
no_profile_earlier = (λ e. cc, (λ e. cc, (λ e. cc, tt)))

no_profile_later : All (λ (y : Start). y.started ≢ profile) later
no_profile_later = (λ e. cc, (λ e. cc, tt))

start_all_watches_example :
    Holds memory
      (memory_scheduler BatchTimeout)
      metadata_codec
      announcement_codec
      config
      profile
      (some profiles)
      none
      "b1"
      (some (
        remaining memory
          (memory_scheduler BatchTimeout)
          metadata_codec
          announcement_codec
          config
          profile
          profiles
          2003))
      (start_all memory
        (memory_scheduler BatchTimeout)
        metadata_codec
        announcement_codec
        config
        (earlier ++ start_of profile 2003 ∷ later)
        restarted)
start_all_watches_example =
    start_all_watches memory (memory_scheduler BatchTimeout) metadata_codec announcement_codec
      config earlier later (start_of profile 2003) restarted profiles none no_profile_earlier
      no_profile_later no_blank_metadata (omega arith) restarted-Represents
