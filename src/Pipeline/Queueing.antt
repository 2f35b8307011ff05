-- ===== src/Pipeline/Queueing.antt =====
-- A request that the rules and an endpoint accept, and the announcement that the worker of
-- apps/worker/src/request_processor queues for it once its assets are pinned.
mod Tests
use mathlib.Core.Option.{some-injective, none-ne-some}
use mathlib.Core.Path.{subst}
use content_publishing_servi.Common.{
  ℕ, String, Option, none, some, List, [], ◌∷◌, Bool, true, false, ◌==ₛ◌, ◌≡◌, refl, sym, ◌∙◌, ap,
  or_else, All,
}
use content_publishing_servi.Services.Redis.{Redis}
use content_publishing_servi.Services.Codec.{Codec}
use content_publishing_servi.Requests.Content.{
  RequestContent, RequestJob, broadcast, reply, reaction, update, profile, tombstone,
}
use content_publishing_servi.Requests.Attachments.{Ipfs, all, each}
use content_publishing_servi.Requests.Announcing.{
  Texts, QueuedAnnouncement, collect_announcement_and_queue,
}
use content_publishing_servi.Requests.Dependencies.{
  JobAnswers, queued, assets_of, some_missing, process, process_pinned, add_announcement,
}
use content_publishing_servi.Requests.Dependencies.Waiting.{ArePinned}
use content_publishing_servi.Api.{
  AssetMetadata, Checked, valid, bad_request, thrown, enqueue_request,
}
use content_publishing_servi.Api.Controllers.{accept, handle, handle-IsJobOf}
use content_publishing_servi.Dtos.{Validators, request_is_valid}
use content_publishing_servi.Dtos.Made.{IsMade}
use content_publishing_servi.Dtos.Accepted.{IsReady, collect_announcement_and_queue-accepted}

-- The date of the request's note is one that the language reads.
abbrev pub IsDated : Texts → RequestContent → Type 0
IsDated texts (broadcast note) = IsMade (texts.iso_date (or_else note.published ""))
IsDated texts (reply in_reply_to note) = IsMade (texts.iso_date (or_else note.published ""))
IsDated texts (reaction emoji apply in_reply_to) = Unit
IsDated texts (update target hash note) = IsMade (texts.iso_date (or_else note.published ""))
IsDated texts (profile activity) = Unit
IsDated texts (tombstone target hash) = Unit

module _ (calculate_job_id : RequestJob → String) where
  accept-IsMade :
      (user : String) (content : RequestContent) (checked : Checked) (job : RequestJob)
      → accept calculate_job_id user content checked ≡ some job
      → IsMade job.asset_to_mime_type
  unfolding accept enqueue_request
  accept-IsMade user content (valid map) job e =
      (map, ap (λ j. j.asset_to_mime_type) (sym (some-injective _ _ e)))
  accept-IsMade user content (bad_request errors) job e = absurd (none-ne-some job e)
  accept-IsMade user content thrown job e = absurd (none-ne-some job e)

  handle-IsReady :
      (asset_json : Codec AssetMetadata) (redis : Redis) (texts : Texts) (db : redis.Db)
      (user : String) (content : RequestContent) (job : RequestJob)
      → handle calculate_job_id asset_json redis db user content ≡ some job
      → IsDated texts content
      → IsReady texts job.asset_to_mime_type content
  unfolding handle
  handle-IsReady asset_json redis texts db user (broadcast note) job e dated =
      (accept-IsMade user (broadcast note) _ job e, dated)
  handle-IsReady asset_json redis texts db user (reply in_reply_to note) job e dated =
      (accept-IsMade user (reply in_reply_to note) _ job e, dated)
  handle-IsReady asset_json redis texts db user (reaction emoji apply in_reply_to) job e dated = tt
  handle-IsReady asset_json redis texts db user (update target hash note) job e dated =
      (accept-IsMade user (update target hash note) _ job e, dated)
  handle-IsReady asset_json redis texts db user (profile activity) job e dated =
      accept-IsMade user (profile activity) _ job e
  handle-IsReady asset_json redis texts db user (tombstone target hash) job e dated = tt

module _ (ipfs : Ipfs) (texts : Texts) where
  -- The contents of assets that are pinned
  ArePinned-contents :
      (cids : List String)
      → ArePinned ipfs texts cids
      → (contents : List String) × (all (each ipfs.get_pinned cids) ≡ some contents)
        × (some_missing contents ≡ false)
  unfolding all each some_missing
  ArePinned-contents [] p = ([], refl, refl)
  ArePinned-contents (cid ∷ cids) ((content, found, full), rest) =
      let (contents, answered, others) = ArePinned-contents cids rest in
      (content ∷ contents, rw (found, answered) refl, rw (full, others) refl)

  process-IsMade :
      (delay_seconds : ℕ) (answers : JobAnswers) (job : RequestJob) (q : QueuedAnnouncement)
      → ArePinned ipfs texts (assets_of job.asset_to_mime_type)
      → answers.adds ≡ true
      → collect_announcement_and_queue ipfs texts job ≡ some q
      → process ipfs texts delay_seconds answers job ≡ queued q
  unfolding process process_pinned add_announcement
  process-IsMade delay_seconds answers job q p adds made =
      let (contents, answered, full) = ArePinned-contents (assets_of job.asset_to_mime_type) p in
      rw (answered, full, made, adds) refl

  -- A request that the rules and the endpoint accept is queued by the requests worker, at whatever
  -- attempt, once its assets are pinned with contents that are not empty: where IPFS answers, the
  -- date of the note is one that the language reads, and the queue takes the job, the run neither
  -- fails nor delays the job again.
  pub handle-queued :
      (calculate_job_id : RequestJob → String) (asset_json : Codec AssetMetadata) (redis : Redis)
      (validators : Validators) (pinned : (cid : String) → IsMade (ipfs.get_pinned cid))
      (pins : (text : String) → IsMade (ipfs.pin text)) (db : redis.Db) (user : String)
      (content : RequestContent) (job : RequestJob) (attempt delay_seconds : ℕ)
      (answers : JobAnswers)
      → request_is_valid validators content ≡ true
      → handle calculate_job_id asset_json redis db user content ≡ some job
      → IsDated texts content
      → ArePinned ipfs texts (assets_of job.asset_to_mime_type)
      → answers.adds ≡ true
      → (q : QueuedAnnouncement) × (process ipfs texts delay_seconds answers
            (record job { dependency_attempt = attempt })
          ≡ queued q)
  handle-queued calculate_job_id asset_json redis validators pinned pins db user content job attempt
        delay_seconds answers well_formed accepted dated p adds =
      let again : RequestJob = record job { dependency_attempt = attempt } in
      let (same, _, _, _, _) =
        handle-IsJobOf calculate_job_id asset_json redis db user content job accepted in
      let ready =
        handle-IsReady calculate_job_id asset_json redis texts db user content job accepted dated in
      let (q, made) =
        collect_announcement_and_queue-accepted validators ipfs texts pinned pins again
          (subst (λ c. request_is_valid validators c ≡ true) (sym same) well_formed)
          (subst (IsReady texts job.asset_to_mime_type) (sym same) ready) in
      (q, process-IsMade delay_seconds answers again q p adds made)
