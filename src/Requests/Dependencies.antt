-- ===== src/Requests/Dependencies.antt =====
-- RequestProcessorService of apps/worker/src/request_processor/request.processor.service.ts: a
-- request waits until its assets are pinned.
pub mod Waiting
use content_publishing_servi.Common.{
  ℕ, zero, suc, ◌+◌, ◌-◌, ◌*◌, ◌^◌, String, Option, none, some, List, [], ◌∷◌, Bool, true, false,
  ◌==ₛ◌, ◌||◌, leb, if◌then◌else◌, is_some,
}
use content_publishing_servi.Requests.Content.{RequestJob}
use content_publishing_servi.Requests.Attachments.{Ipfs, all, each}
use content_publishing_servi.Requests.Announcing.{
  Texts, QueuedAnnouncement, collect_announcement_and_queue,
}

abbrev pub milliseconds_per_second : ℕ
milliseconds_per_second = 1000

-- How a run ends: the announcement is queued, the job is delayed until a time with the data that is
-- stored for it, or an error is thrown.
pub data RequestEnd : Type 0 where
  queued : QueuedAnnouncement → RequestEnd
  delayed : ℕ → RequestJob → RequestEnd
  failed : RequestEnd

-- What the job's queues answer: whether the job could be moved and its data stored, and whether the
-- announcement could be added
pub record JobAnswers : Type 0 where
  pub now : ℕ
  pub moves : Bool
  pub stores : Bool
  pub adds : Bool

-- Object.keys(assetToMimeType), or []
unfoldable pub assets_of : Option (List (String × String)) → List String
assets_of none = []
assets_of (some []) = []
assets_of (some ((cid, mime_type) ∷ rest)) = cid ∷ assets_of (some rest)

-- pinnedResult.some(buffer => !buffer || buffer.length === 0)
unfoldable pub some_missing : List String → Bool
some_missing [] = false
some_missing (content ∷ rest) = content ==ₛ "" || some_missing rest

-- The job moves before its data are stored: if these are not, the attempt is not counted.
unfoldable pub delay_job_and_increment_attempts : ℕ → JobAnswers → RequestJob → RequestEnd
delay_job_and_increment_attempts delay_seconds answers job =
    let attempt = job.dependency_attempt + 1 in
    if leb attempt 3
    then if answers.moves
      then delayed (answers.now + 2 ^ attempt * delay_seconds * milliseconds_per_second)
          (if answers.stores then record job { dependency_attempt = attempt } else job)
      else failed
    else failed

module _ (ipfs : Ipfs) (texts : Texts) where
  unfoldable pub add_announcement : JobAnswers → Option QueuedAnnouncement → RequestEnd
  add_announcement answers none = failed
  add_announcement answers (some q) = if answers.adds then queued q else failed

  -- Once the pinned contents are there; none if a call is rejected
  unfoldable pub process_pinned : ℕ → JobAnswers → RequestJob → Option (List String) → RequestEnd
  unfolding some_missing delay_job_and_increment_attempts collect_announcement_and_queue
      add_announcement
  process_pinned delay_seconds answers job none = failed
  process_pinned delay_seconds answers job (some contents) =
      if some_missing contents
      then delay_job_and_increment_attempts delay_seconds answers job
      else add_announcement answers (collect_announcement_and_queue ipfs texts job)

  unfoldable pub process : ℕ → JobAnswers → RequestJob → RequestEnd
  unfolding process_pinned all each assets_of
  process delay_seconds answers job =
      process_pinned delay_seconds answers job
        (all (each ipfs.get_pinned (assets_of job.asset_to_mime_type)))

  -- The runs of one job, each when the delay of the one before is over, with its announcements'
  -- answers: the delays, and the end of the last run. The fuel counts the runs.
  unfoldable pub run_all : ℕ → ℕ → ℕ → RequestJob → List ℕ × RequestEnd
  run_all zero delay_seconds now job = ([], failed)
  run_all (suc fuel) delay_seconds now job =
      elim (process delay_seconds (record { now = now; moves = true; stores = true; adds = true })
        job) [
          | queued q ↦ ([], queued q)
          | failed ↦ ([], failed)
          | delayed until later ↦
              let (delays, last) = run_all fuel delay_seconds until later in
              ((until - now) ∷ delays, last)
        ]
