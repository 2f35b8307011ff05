-- ===== src/Pipeline.antt =====
-- A request from the API to its batch: apps/api/src/content.controller.ts and profile.controller.ts, the
-- worker of apps/worker/src/request_processor and the workers of apps/worker/src/batching_processor.
pub mod Queueing
mod Tests
use mathlib.Core.List.{Perm}
use content_publishing_servi.Common.{
  ℕ, String, Option, none, some, List, ◌∷◌, false, ◌≡◌, ◌∙◌, sym, ap,
}
use mathlib.Core.Path.{subst}
use content_publishing_servi.Services.Redis.{Redis, has_field}
use content_publishing_servi.Services.Codec.{Codec}
use content_publishing_servi.Services.Scheduler.{Scheduler}
use content_publishing_servi.Queues.{AnnouncementTypeDto, announcement_to_queue_name}
use content_publishing_servi.Dsnp.{Announcement, announcement_type}
use content_publishing_servi.Requests.Content.{RequestContent, RequestJob}
use content_publishing_servi.Requests.Attachments.{Ipfs}
use content_publishing_servi.Requests.Announcing.{Texts, QueuedAnnouncement}
use content_publishing_servi.Requests.Announcing.Dispatch.{
  dto_type_of, type_of, collect_announcement_and_queue-dispatch,
}
use content_publishing_servi.Requests.Dependencies.{JobAnswers, queued}
use content_publishing_servi.Requests.Dependencies
use content_publishing_servi.Requests.Dependencies.Waiting.{process-queued}
use content_publishing_servi.Api.{AssetMetadata}
use content_publishing_servi.Api.Controllers.{handle, handle-IsJobOf}
use content_publishing_servi.Batching.{BatchTimeout, BatchConfig, Round, BatchState}
use content_publishing_servi.Batching.Metadata.{BatchMetadata}
use content_publishing_servi.Batching.Counting.{AllCounted, rows_of}
use content_publishing_servi.Batching.Arrival.{process_adds}
use content_publishing_servi.Batching.Closing.{QueueState}
use content_publishing_servi.Batching.Closing.Delivery.{Shows}
use content_publishing_servi.Batching.Closing.Conservation.{holdings, AllDeleted}
use content_publishing_servi.Batching.Closing.Jobs.{IsGrown}
use content_publishing_servi.Batching.Workers.{Worker, worker_of}
use content_publishing_servi.Batching.Workers.Routes.{worker_of-IsAt}

module _ (calculate_job_id : RequestJob → String) (asset_json : Codec AssetMetadata) (redis : Redis)
    (ipfs : Ipfs) (texts : Texts) (scheduler : Scheduler BatchTimeout)
    (metadata_json : Codec BatchMetadata) (row_json : Codec Announcement)
    (config : BatchConfig) where
  -- What has become of an accepted request: the announcement that was queued, and the queue's batches
  -- before and after the worker of the queue has run.
  pub record IsBatched (user : String) (content : RequestContent) (q : QueuedAnnouncement)
      (held : QueueState) (after : BatchState redis scheduler) : Type 0 where
    pub at_queue :
        q.queue_name
        ≡ (worker_of redis scheduler metadata_json row_json config (dto_type_of content)).queue_name
    pub at_type : announcement_type q.announcement ≡ type_of content
    pub at_user : q.announcement.from_id ≡ user
    pub queue : QueueState
    pub shown : Shows redis scheduler metadata_json row_json config q.queue_name after queue
    pub added :
        Perm
          (holdings row_json config q.queue_name queue)
          (q.announcement ∷ holdings row_json config q.queue_name held)
    pub grown : IsGrown row_json config (dto_type_of content) held.jobs queue.jobs

  module _ (t : AnnouncementTypeDto) (rounds : List Round) (s : BatchState redis scheduler)
      (held : QueueState) (job_id : String) (a : Announcement) (batch_id : String) (now : ℕ)
      (counted : AllCounted held.open_batch)
      (new : has_field job_id (rows_of held.open_batch) ≡ false) where
    -- What the worker of the type does to the queue `name`
    abbrev Works : String → Type 0
    Works name =
        AllDeleted row_json config name rounds
        → Shows redis scheduler metadata_json row_json config name s held
        → (u : QueueState) × Shows redis scheduler metadata_json row_json config name
            ((worker_of redis scheduler metadata_json row_json config t).process_job rounds s job_id
              a batch_id now).1
            u
          × Perm (holdings row_json config name u) (a ∷ holdings row_json config name held)
          × IsGrown row_json config t held.jobs u.jobs

    process_job-Works : Works (announcement_to_queue_name t)
    process_job-Works d h =
        let route = worker_of-IsAt redis scheduler metadata_json row_json config t in
        let (u, shown, added, grown) =
          process_adds redis scheduler metadata_json row_json config t batch_id rounds s held job_id
            a now d counted new h in
        (
          u,
          subst
              (λ r.
                Shows redis scheduler metadata_json row_json config (announcement_to_queue_name t)
                  r.1 u)
              (sym (route.at_job rounds s job_id a batch_id now)) shown,
          added,
          grown,
        )

  -- A request that an endpoint accepts, and whose job the requests worker turns into an announcement,
  -- at whatever attempt, goes to the queue of the worker of its type, and the announcement is of that
  -- type and from the request's user. When that worker processes it, it is added once to the
  -- announcements of the queue, and none of these is lost or repeated; the jobs that are added to
  -- the batch queue by then carry the schema id of the type. The request is not in the open batch yet,
  -- which counts its rows, and the deletions do not fail.
  pub handle-IsBatched :
      (db : redis.Db) (user : String) (content : RequestContent) (job : RequestJob)
      (attempt delay_seconds : ℕ) (answers : JobAnswers) (q : QueuedAnnouncement)
      (rounds : List Round) (s : BatchState redis scheduler) (held : QueueState) (batch_id : String)
      (now : ℕ)
      → handle calculate_job_id asset_json redis db user content ≡ some job
      → Dependencies.process ipfs texts delay_seconds answers
          (record job { dependency_attempt = attempt })
        ≡ queued q
      → AllDeleted row_json config q.queue_name rounds
      → AllCounted held.open_batch
      → has_field q.job_id (rows_of held.open_batch) ≡ false
      → Shows redis scheduler metadata_json row_json config q.queue_name s held
      → IsBatched user content q held
          ((worker_of redis scheduler metadata_json row_json config
              (dto_type_of content)).process_job
            rounds s q.job_id q.announcement batch_id now).1
  handle-IsBatched db user content job attempt delay_seconds answers q rounds s held batch_id now e
        p d counted new h =
      let again : RequestJob = record job { dependency_attempt = attempt } in
      let (same_content, same_user, _, _, _) =
        handle-IsJobOf calculate_job_id asset_json redis db user content job e in
      let made = (process-queued ipfs texts delay_seconds answers again q p).1 in
      let (to_queue, of_type, from_user, _) =
        collect_announcement_and_queue-dispatch ipfs texts again q made in
      let t = dto_type_of content in
      let at_name = to_queue ∙ ap (λ c. announcement_to_queue_name (dto_type_of c)) same_content in
      let route = worker_of-IsAt redis scheduler metadata_json row_json config t in
      let (u, shown, added, grown) =
        subst (Works t rounds s held q.job_id q.announcement batch_id now counted new) (sym at_name)
          (process_job-Works t rounds s held q.job_id q.announcement batch_id now counted new) d
          h in
      record {
        at_queue = at_name ∙ sym route.at_queue;
        at_type = of_type ∙ ap type_of same_content;
        at_user = from_user ∙ same_user;
        queue = u;
        shown = shown;
        added = added;
        grown = grown;
      }
