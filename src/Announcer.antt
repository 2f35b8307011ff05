-- ===== src/Announcer.antt =====
-- BatchAnnouncer and BatchAnnouncementService of apps/worker/src/batch_announcer: a batch becomes a
-- file that is pinned, and a job for the publisher.
pub mod Cache
mod Tests
use content_publishing_servi.Common.{
  ℕ, String, ◌+++◌, Option, none, some, List, [], ◌∷◌, ◌++◌, Bool, true, false, ◌==ₛ◌,
  if◌then◌else◌, show,
}
use content_publishing_servi.Services.Redis.{Redis, Entry, missing, string, hash}
use content_publishing_servi.Dsnp.{Announcement}
use content_publishing_servi.Monitor.{PublisherJob}
use content_publishing_servi.Api.Assets.{storage_expire_upper_limit_seconds}

-- IBatchAnnouncerJobData
pub record AnnouncerJob : Type 0 where
  pub batch_id : String
  pub schema_id : ℕ
  pub announcements : List Announcement

-- The libraries that read a schema (none if they throw or find null), write a file of rows with it,
-- and pin it, which answers the cid and the size
pub record FileTools : Type 1 where
  pub Schema : Type 0
  pub read_schema : String → Option Schema
  pub write_file : Schema → List Announcement → Option String
  pub pin : String → Option (String × ℕ)

abbrev pub schema_cache_key : ℕ → String
schema_cache_key schema_id = "schema:" +++ show schema_id

-- The publish job of a pinned file
unfoldable pub publisher_job : AnnouncerJob → Option (String × ℕ) → Option PublisherJob
publisher_job job none = none
publisher_job job (some (cid, size)) = some (record {
  id = job.batch_id;
  schema_id = job.schema_id;
  job_data = record { cid = cid; payload_length = size };
})

module _ (tools : FileTools) where
  unfoldable pub pin_file : AnnouncerJob → Option String → Option PublisherJob
  unfolding publisher_job
  pin_file job none = none
  pin_file job (some buffer) = publisher_job job (tools.pin buffer)

  unfoldable pub write_rows : AnnouncerJob → Option tools.Schema → Option PublisherJob
  unfolding pin_file
  write_rows job none = none
  write_rows job (some schema) = pin_file job (tools.write_file schema job.announcements)

  module _ (redis : Redis) where
    -- What follows once the schema's text is there, with the store as it is then
    unfoldable pub with_schema :
        AnnouncerJob → Option String × redis.Db → Option PublisherJob × redis.Db
    unfolding write_rows
    with_schema job (none, db) = (none, db)
    with_schema job (some text, db) = (write_rows job (tools.read_schema text), db)

    -- The schema's text from the chain (none if the query is rejected), which is then cached
    unfoldable pub fetch_schema : redis.Db → ℕ → Option String → Option String × redis.Db
    fetch_schema db schema_id none = (none, db)
    fetch_schema db schema_id (some text) = (
      some text,
      redis.setex db (schema_cache_key schema_id) storage_expire_upper_limit_seconds text,
    )

    -- `if (!cachedSchema)`: the empty text counts as none; at a hash the call is rejected
    unfoldable pub find_schema : redis.Db → ℕ → Option String → Entry → Option String × redis.Db
    unfolding fetch_schema
    find_schema db schema_id payload missing = fetch_schema db schema_id payload
    find_schema db schema_id payload (hash fields) = (none, db)
    find_schema db schema_id payload (string text) =
        if text ==ₛ "" then fetch_schema db schema_id payload else (some text, db)

    -- announce, where the chain would answer `payload`; the job, or none if it throws
    unfoldable pub announce :
        redis.Db → Option String → AnnouncerJob → Option PublisherJob × redis.Db
    unfolding with_schema find_schema
    announce db payload job =
        with_schema job
          (find_schema db job.schema_id payload (redis.view db (schema_cache_key job.schema_id)))

    -- BatchAnnouncementService.process: the jobs of the publish queue; false if it throws
    unfoldable pub add_job :
        List PublisherJob → Bool → Option PublisherJob → List PublisherJob × Bool
    add_job jobs adds none = (jobs, false)
    add_job jobs adds (some job) = if adds then (jobs ++ job ∷ [], true) else (jobs, false)
