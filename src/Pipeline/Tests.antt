-- ===== src/Pipeline/Tests.antt =====
-- A broadcast without assets that arrives in an empty queue.
use content_publishing_servi.Common.{none, some, List, [], ◌∷◌, true, ◌≡◌, refl}
use content_publishing_servi.Services.Memory.{memory, empty_store, no_timers, memory_scheduler}
use content_publishing_servi.Queues.{dev, AnnouncementTypeDto}
use content_publishing_servi.Dsnp.{create_broadcast}
use content_publishing_servi.Requests.Content.{NoteActivityDto, RequestJob, broadcast}
use content_publishing_servi.Requests.Announcing.{QueuedAnnouncement}
use content_publishing_servi.Requests.Dependencies.{JobAnswers, queued, process}
use content_publishing_servi.Requests.Instances.{ipfs, texts}
use content_publishing_servi.Api.Controllers.{handle}
use content_publishing_servi.Api.Instances.{asset_codec}
use content_publishing_servi.Batching.{BatchTimeout, BatchConfig, Round, BatchState}
use content_publishing_servi.Batching.Instances.{metadata_codec, announcement_codec}
use content_publishing_servi.Batching.Closing.{QueueState}
use content_publishing_servi.Batching.Closing.Delivery.{Shows}
use content_publishing_servi.Batching.Workers.{worker_of}
use content_publishing_servi.Pipeline.{IsBatched, handle-IsBatched}

abbrev config : BatchConfig
config = record { environment = dev; batch_interval_seconds = 12; batch_max_count = 100 }

abbrev note : NoteActivityDto
note = record {
  name = none;
  tag = none;
  location = none;
  content = some "hello";
  published = some "2024-01-01T00:00:00.000Z";
  assets = none;
}

abbrev job : RequestJob
job = record {
  id = "r1";
  dsnp_user_id = "1";
  asset_to_mime_type = some [];
  content = broadcast note;
  dependency_attempt = 0;
}

accepted : handle (λ job. "r1") asset_codec memory empty_store "1" (broadcast note) ≡ some job
unfolding handle
accepted = refl

abbrev answers : JobAnswers
answers = record { now = 0; moves = true; stores = true; adds = true }

abbrev sent : QueuedAnnouncement
sent = record {
  queue_name = "broadcastQueue";
  name = "Broadcast Job - r1";
  announcement = create_broadcast "1" "http://host/ipfs/bafy" "hash";
  job_id = "r1";
}

processed : process ipfs texts 5 answers (record job { dependency_attempt = 0 }) ≡ queued sent
unfolding process
processed = refl

abbrev start : BatchState memory (memory_scheduler BatchTimeout)
start = record { db = empty_store; jobs = []; timers = no_timers }

abbrev nothing : QueueState
nothing = record { open_batch = none; locked_batch = none; jobs = [] }

abbrev rounds : List Round
rounds = record { now = 2000; queued = true; deleted = true } ∷ []

start-Shows :
    Shows memory
      (memory_scheduler BatchTimeout)
      metadata_codec
      announcement_codec
      config
      "broadcastQueue"
      start
      nothing
start-Shows = record {
  slots = record { at_open = (refl, refl); at_lock = (refl, refl) };
  jobs = refl;
}

handle-IsBatched_example :
    IsBatched
      (λ job. "r1")
      asset_codec
      memory
      ipfs
      texts
      (memory_scheduler BatchTimeout)
      metadata_codec
      announcement_codec
      config
      "1"
      (broadcast note)
      sent
      nothing
      ((worker_of memory
          (memory_scheduler BatchTimeout)
          metadata_codec
          announcement_codec
          config
          AnnouncementTypeDto.broadcast).process_job
        rounds start "r1" sent.announcement "b1" 2000).1
handle-IsBatched_example =
    handle-IsBatched (λ job. "r1") asset_codec memory ipfs texts (memory_scheduler BatchTimeout)
      metadata_codec announcement_codec config empty_store "1" (broadcast note) job 0 5 answers sent
      rounds start nothing "b1" 2000 accepted processed (refl, tt) tt refl start-Shows
