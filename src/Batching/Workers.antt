-- ===== src/Batching/Workers.antt =====
-- The six workers of apps/worker/src/batching_processor/workers: each hands the start, the jobs and
-- their completion of its queue on to BatchingProcessorService.
pub mod Routes
pub mod Names
pub mod Startup
mod Tests
use content_publishing_servi.Common.{ℕ, String, List}
use content_publishing_servi.Services.Redis.{Redis}
use content_publishing_servi.Services.Codec.{Codec}
use content_publishing_servi.Services.Scheduler.{Scheduler}
use content_publishing_servi.Queues.{
  broadcast_queue_name, reply_queue_name, reaction_queue_name, update_queue_name,
  tombstone_queue_name, profile_queue_name, AnnouncementTypeDto, broadcast, reply, reaction, update,
  tombstone, profile,
}
use content_publishing_servi.Dsnp.{Announcement}
use content_publishing_servi.Consumer.{un_track_job}
use content_publishing_servi.Batching.{
  BatchTimeout, BatchConfig, Round, Outcome, BatchState, process,
}
use content_publishing_servi.Batching.Setup.{setup_active_batch_timeout}
use content_publishing_servi.Batching.Metadata.{BatchMetadata}

module _ (redis : Redis) (scheduler : Scheduler BatchTimeout) (metadata_json : Codec BatchMetadata)
    (row_json : Codec Announcement) (config : BatchConfig) where
  abbrev pub State : Type 0
  State = BatchState redis scheduler

  -- What a worker does; the arguments of a call are those of the service's, without the queue.
  pub record Worker : Type 0 where
    -- the queue of its @Processor
    pub queue_name : String
    pub on_application_bootstrap : List Round → State → ℕ → Outcome × State
    pub process_job : List Round → State → String → Announcement → String → ℕ → Outcome × State
    -- the active jobs
    pub on_completed : List String → String → List String

  unfoldable pub broadcast_worker : Worker
  unfolding setup_active_batch_timeout process un_track_job
  broadcast_worker = record {
    queue_name = broadcast_queue_name;
    on_application_bootstrap = λ rounds s now.
        setup_active_batch_timeout redis scheduler metadata_json row_json config rounds s
          broadcast_queue_name now;
    process_job = λ rounds s job_id a batch_id now.
        process redis scheduler metadata_json row_json config rounds s broadcast_queue_name job_id a
          batch_id now;
    on_completed = un_track_job;
  }

  unfoldable pub reply_worker : Worker
  unfolding setup_active_batch_timeout process un_track_job
  reply_worker = record {
    queue_name = reply_queue_name;
    on_application_bootstrap = λ rounds s now.
        setup_active_batch_timeout redis scheduler metadata_json row_json config rounds s
          reply_queue_name now;
    process_job = λ rounds s job_id a batch_id now.
        process redis scheduler metadata_json row_json config rounds s reply_queue_name job_id a
          batch_id now;
    on_completed = un_track_job;
  }

  unfoldable pub reaction_worker : Worker
  unfolding setup_active_batch_timeout process un_track_job
  reaction_worker = record {
    queue_name = reaction_queue_name;
    on_application_bootstrap = λ rounds s now.
        setup_active_batch_timeout redis scheduler metadata_json row_json config rounds s
          reaction_queue_name now;
    process_job = λ rounds s job_id a batch_id now.
        process redis scheduler metadata_json row_json config rounds s reaction_queue_name job_id a
          batch_id now;
    on_completed = un_track_job;
  }

  unfoldable pub update_worker : Worker
  unfolding setup_active_batch_timeout process un_track_job
  update_worker = record {
    queue_name = update_queue_name;
    on_application_bootstrap = λ rounds s now.
        setup_active_batch_timeout redis scheduler metadata_json row_json config rounds s
          update_queue_name now;
    process_job = λ rounds s job_id a batch_id now.
        process redis scheduler metadata_json row_json config rounds s update_queue_name job_id a
          batch_id now;
    on_completed = un_track_job;
  }

  unfoldable pub tombstone_worker : Worker
  unfolding setup_active_batch_timeout process un_track_job
  tombstone_worker = record {
    queue_name = tombstone_queue_name;
    on_application_bootstrap = λ rounds s now.
        setup_active_batch_timeout redis scheduler metadata_json row_json config rounds s
          tombstone_queue_name now;
    process_job = λ rounds s job_id a batch_id now.
        process redis scheduler metadata_json row_json config rounds s tombstone_queue_name job_id a
          batch_id now;
    on_completed = un_track_job;
  }

  unfoldable pub profile_worker : Worker
  unfolding setup_active_batch_timeout process un_track_job
  profile_worker = record {
    queue_name = profile_queue_name;
    on_application_bootstrap = λ rounds s now.
        setup_active_batch_timeout redis scheduler metadata_json row_json config rounds s
          profile_queue_name now;
    process_job = λ rounds s job_id a batch_id now.
        process redis scheduler metadata_json row_json config rounds s profile_queue_name job_id a
          batch_id now;
    on_completed = un_track_job;
  }

  -- The worker of the queue of an announcement type
  unfoldable pub worker_of : AnnouncementTypeDto → Worker
  unfolding broadcast_worker reply_worker reaction_worker update_worker tombstone_worker
      profile_worker
  worker_of broadcast = broadcast_worker
  worker_of reply = reply_worker
  worker_of reaction = reaction_worker
  worker_of update = update_worker
  worker_of tombstone = tombstone_worker
  worker_of profile = profile_worker
