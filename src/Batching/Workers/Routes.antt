-- ===== src/Batching/Workers/Routes.antt =====
-- The worker of a type works for the queue of the type.
use content_publishing_servi.Common.{ℕ, String, List, ◌≡◌, refl}
use content_publishing_servi.Services.Redis.{Redis}
use content_publishing_servi.Services.Codec.{Codec}
use content_publishing_servi.Services.Scheduler.{Scheduler}
use content_publishing_servi.Queues.{
  AnnouncementTypeDto, broadcast, reply, reaction, update, tombstone, profile,
  announcement_to_queue_name,
}
use content_publishing_servi.Dsnp.{Announcement}
use content_publishing_servi.Batching.{BatchTimeout, BatchConfig, Round, BatchState, process}
use content_publishing_servi.Batching.Setup.{setup_active_batch_timeout}
use content_publishing_servi.Batching.Metadata.{BatchMetadata}
use content_publishing_servi.Batching.Workers.{Worker, worker_of}

module _ (redis : Redis) (scheduler : Scheduler BatchTimeout) (metadata_json : Codec BatchMetadata)
    (row_json : Codec Announcement) (config : BatchConfig) where
  -- The worker serves the queue of the type, and its three calls are the service's at that queue.
  pub record IsAt (queue : String) (w : Worker redis scheduler metadata_json row_json config)
      : Type 0 where
    pub at_queue : w.queue_name ≡ queue
    pub at_start :
        (rounds : List Round) (s : BatchState redis scheduler) (now : ℕ)
        → w.on_application_bootstrap rounds s now
          ≡ setup_active_batch_timeout redis scheduler metadata_json row_json config rounds s queue
              now
    pub at_job :
        (rounds : List Round) (s : BatchState redis scheduler) (job_id : String) (a : Announcement)
        (batch_id : String) (now : ℕ)
        → w.process_job rounds s job_id a batch_id now
          ≡ process redis scheduler metadata_json row_json config rounds s queue job_id a batch_id
              now

  pub worker_of-IsAt :
      (t : AnnouncementTypeDto)
      → IsAt
          (announcement_to_queue_name t)
          (worker_of redis scheduler metadata_json row_json config t)
  unfolding worker_of announcement_to_queue_name
  worker_of-IsAt broadcast = record {
    at_queue = refl;
    at_start = λ rounds s now. refl;
    at_job = λ rounds s job_id a batch_id now. refl;
  }
  worker_of-IsAt reply = record {
    at_queue = refl;
    at_start = λ rounds s now. refl;
    at_job = λ rounds s job_id a batch_id now. refl;
  }
  worker_of-IsAt reaction = record {
    at_queue = refl;
    at_start = λ rounds s now. refl;
    at_job = λ rounds s job_id a batch_id now. refl;
  }
  worker_of-IsAt update = record {
    at_queue = refl;
    at_start = λ rounds s now. refl;
    at_job = λ rounds s job_id a batch_id now. refl;
  }
  worker_of-IsAt tombstone = record {
    at_queue = refl;
    at_start = λ rounds s now. refl;
    at_job = λ rounds s job_id a batch_id now. refl;
  }
  worker_of-IsAt profile = record {
    at_queue = refl;
    at_start = λ rounds s now. refl;
    at_job = λ rounds s job_id a batch_id now. refl;
  }
