-- ===== src/Batching.antt =====
-- The batching of announcements: apps/worker/src/batching_processor/batching.processor.service.ts
-- and its Redis scripts.
pub mod Metadata
pub mod Scripts
pub mod Spec
pub mod Slots
pub mod Locking
pub mod Closing
pub mod Setup
pub mod Keeping
pub mod Frame
pub mod Arrival
pub mod Timers
pub mod Counting
pub mod Workers
pub mod Instances
pub mod Samples
mod Tests
use content_publishing_servi.Common.{
  ℕ, ◌+◌, ◌-◌, ◌*◌, String, ◌+++◌, Option, none, some, List, [], ◌∷◌, ◌++◌, Bool, true, false, leb,
  ◌==◌, ◌==ₛ◌, if◌then◌else◌, is_some,
}
use content_publishing_servi.Services.Redis.{
  Redis, Entry, missing, string, hash, RedisError, Reply, ok, raised,
}
use content_publishing_servi.Services.Codec.{Codec}
use content_publishing_servi.Services.Scheduler.{Scheduler}
use content_publishing_servi.Queues.{ChainEnvironment, get_schema_id, queue_name_to_announcement}
use content_publishing_servi.Dsnp.{Announcement}
use Metadata.{BatchMetadata, keys_of, get_batch_metadata_key}
use Scripts.{LockReply, no_batch, still_locked, leftover, locked, add_to_batch, lock_batch}

-- An add to the batch queue: the name and the jobId that it is called with, and its data, an
-- IBatchAnnouncerJobData. The schema id is undefined for a queue that has no announcement type.
pub record BatchAnnouncerJob : Type 0 where
  pub name : String
  pub job_id : String
  pub batch_id : String
  pub schema_id : Option ℕ
  pub announcements : List Announcement

-- A timeout that closes the batch `batch_id` of a queue.
pub record BatchTimeout : Type 0 where
  pub queue_name : String
  pub batch_id : String
  pub timeout_ms : ℕ

-- The settings that the service reads.
pub record BatchConfig : Type 0 where
  pub environment : ChainEnvironment
  pub batch_interval_seconds : ℕ
  pub batch_max_count : ℕ

-- What one call of closeBatch meets: the time, whether outputQueue.add succeeds, and whether the
-- transaction that deletes the locked keys does.
pub record Round : Type 0 where
  pub now : ℕ
  pub queued : Bool
  pub deleted : Bool

pub data BatchFailure : Type 0 where
  redis_failed : RedisError → BatchFailure
  bad_json queue_failed invalid_result : BatchFailure

-- A call returns, throws, or wants one round more than there is.
pub data Outcome : Type 0 where
  done : Outcome
  failed : BatchFailure → Outcome
  out_of_rounds : Outcome

-- MILLISECONDS_PER_SECOND
abbrev pub milliseconds_per_second : ℕ
milliseconds_per_second = 1000

-- BATCH_LOCK_EXPIRE_SECONDS
abbrev pub batch_lock_expire_seconds : ℕ
batch_lock_expire_seconds = 6

unfoldable pub get_timeout_name : String → String → String
get_timeout_name queue_name batch_id = "TIMEOUT:" +++ (queue_name +++ (":" +++ batch_id))

abbrev cons_row : Option Announcement → Option (List Announcement) → Option (List Announcement)
cons_row (some a) (some rest) = some (a ∷ rest)
cons_row _ _ = none

-- JSON.parse of the value in each pair of a field and its value; none if one throws
unfoldable pub parse_rows : Codec Announcement → List (String × String) → Option (List Announcement)
parse_rows json [] = some []
parse_rows json ((job_id, row) ∷ rest) = cons_row (json.decode row) (parse_rows json rest)

-- The metadata of a new batch in process.
abbrev pub first_metadata : String → ℕ → BatchMetadata
first_metadata batch_id now = record {
  batch_id = batch_id;
  start_timestamp = now;
  row_count = some 1;
  lock_timestamp = none;
}

module _ (redis : Redis) (scheduler : Scheduler BatchTimeout) where
  open redis use {Db, view, del}
  open scheduler use {Timers, find, delete_timeout, add_timeout}

  pub record BatchState : Type 0 where
    pub db : Db
    -- the adds that outputQueue has accepted, the oldest first; the queue keeps one job of each id,
    -- and leaves itself as it is at an accepted add whose job_id it has
    pub jobs : List BatchAnnouncerJob
    pub timers : Timers

  -- if (doesExist(name)) deleteTimeout(name)
  pub remove_timeout : Timers → String → Timers
  remove_timeout timers name =
      if is_some (find timers name) then delete_timeout timers name else timers

  pub add_batch_timeout : BatchState → String → String → ℕ → BatchState
  unfolding remove_timeout
  add_batch_timeout s queue_name batch_id timeout_ms =
      let name = get_timeout_name queue_name batch_id in
      let timeout : BatchTimeout = record {
        queue_name = queue_name;
        batch_id = batch_id;
        timeout_ms = timeout_ms;
      } in
      record s { timers = add_timeout (remove_timeout s.timers name) name timeout }

  module _ (metadata_json : Codec BatchMetadata) (row_json : Codec Announcement)
      (config : BatchConfig) where
    -- if (announcements.length > 0) await outputQueue.add(…)
    pub queue_batch :
        BatchState → String → Bool → BatchMetadata → List Announcement → Option BatchState
    queue_batch s queue_name queued metadata [] = some s
    queue_batch s queue_name queued metadata (a ∷ rest) = elim queued [
      | false ↦ none
      | true ↦
          let job : BatchAnnouncerJob = record {
            name = "Batch Job - " +++ metadata.batch_id;
            job_id = metadata.batch_id;
            batch_id = metadata.batch_id;
            schema_id = elim (queue_name_to_announcement queue_name) [
              | none ↦ none
              | some announcement_type ↦ some (get_schema_id config.environment announcement_type)
            ];
            announcements = a ∷ rest;
          } in
          some (record s { jobs = s.jobs ++ job ∷ [] })
    ]

    -- The try block: the locked keys are deleted, and then the timeout of `batch_id`.
    pub delete_locked : BatchState → String → String → Bool → BatchState
    unfolding remove_timeout
    delete_locked s queue_name batch_id deleted =
        let ks = keys_of queue_name in
        if deleted
        then record s {
          db = del (del s.db ks.locked_metadata) ks.locked_rows;
          timers = remove_timeout s.timers (get_timeout_name queue_name batch_id);
        }
        else s

    -- The part of closeBatch that stands between the reply of the script and the last `if`.
    pub close_locked :
        BatchState
        → String
        → String
        → Round
        → List (String × String)
        → String
        → (BatchState → Outcome × BatchState)
        → Outcome × BatchState
    unfolding queue_batch delete_locked
    close_locked s queue_name batch_id round rows raw_metadata next =
        elim (metadata_json.decode raw_metadata) [
          | none ↦ (failed bad_json, s)
          | some metadata ↦ elim (parse_rows row_json rows) [
            | none ↦ (failed bad_json, s)
            | some announcements ↦
                elim (queue_batch s queue_name round.queued metadata announcements) [
                  | none ↦ (failed queue_failed, s)
                  | some s' ↦ next (delete_locked s' queue_name batch_id round.deleted)
                ]
          ]
        ]

    -- closeBatch at a reply of the script
    pub close_reply :
        BatchState
        → String
        → String
        → Round
        → Reply LockReply
        → (BatchState → Outcome × BatchState)
        → Outcome × BatchState
    unfolding close_locked
    close_reply s queue_name batch_id round (raised e) again = (failed (redis_failed e), s)
    close_reply s queue_name batch_id round (ok no_batch) again = (done, s)
    close_reply s queue_name batch_id round (ok still_locked) again = (done, s)
    close_reply s queue_name batch_id round (ok (leftover rows metadata)) again =
        close_locked s queue_name batch_id round rows metadata again
    close_reply s queue_name batch_id round (ok (locked rows metadata)) again =
        close_locked s queue_name batch_id round rows metadata (λ s'. (done, s'))

    -- closeBatch; each call of it, the first and those that it makes of itself, takes a round
    pub close_batch : List Round → BatchState → String → String → Outcome × BatchState
    unfolding close_reply
    close_batch [] s queue_name batch_id = (out_of_rounds, s)
    close_batch (round ∷ rounds) s queue_name batch_id =
        let (response, db') =
          lock_batch redis metadata_json s.db (keys_of queue_name) round.now
            (batch_lock_expire_seconds * 1000) in
        close_reply (record s { db = db' }) queue_name batch_id round response
          (λ s'. close_batch rounds s' queue_name batch_id)

    -- process at the reply of addToBatch
    pub process_reply :
        BatchState → String → String → List Round → Reply (Option ℕ) → Outcome × BatchState
    unfolding close_batch add_batch_timeout
    process_reply s queue_name batch_id rounds (raised e) = (failed (redis_failed e), s)
    process_reply s queue_name batch_id rounds (ok none) = (failed invalid_result, s)
    process_reply s queue_name batch_id rounds (ok (some row_count)) =
        let closed = close_batch rounds s queue_name batch_id in
        if row_count == 1
        then (
          done,
          add_batch_timeout s queue_name batch_id
              (config.batch_interval_seconds * milliseconds_per_second),
        )
        else if leb config.batch_max_count row_count
        then closed
        else (done, s)

    -- process of a job, with the id that randomUUID gives and the time
    pub process :
        List Round → BatchState → String → String → Announcement → String → ℕ → Outcome × BatchState
    unfolding process_reply
    process rounds s queue_name job_id announcement batch_id now =
        let new_metadata = metadata_json.encode (first_metadata batch_id now) in
        let (row_count, db') =
          add_to_batch redis metadata_json s.db (keys_of queue_name) new_metadata job_id
            (row_json.encode announcement) in
        process_reply (record s { db = db' }) queue_name batch_id rounds row_count
