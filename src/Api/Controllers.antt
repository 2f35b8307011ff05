-- ===== src/Api/Controllers.antt =====
-- The endpoints of apps/api/src/content.controller.ts and profile.controller.ts.
use content_publishing_servi.Common.{String, Option, none, some, List, ◌≡◌, refl}
use mathlib.Core.Option.{none-ne-some, some-injective}
use mathlib.Core.Path.{subst}
use content_publishing_servi.Services.Redis.{Redis}
use content_publishing_servi.Services.Codec.{Codec}
use content_publishing_servi.Requests.Content.{
  RequestContent, broadcast, reply, reaction, update, profile, tombstone, RequestJob,
  NoteActivityDto,
}
use content_publishing_servi.Api.{
  AssetMetadata, Checked, valid, bad_request, thrown, AssetIncludedRequest, enqueue_request,
  validate_assets_and_fetch_metadata,
}
use content_publishing_servi.Api.Naming.{IsChecked, validate_assets_and_fetch_metadata-IsChecked}

module _ (calculate_job_id : RequestJob → String) where
  -- What the handlers do with the outcome of the validation: the job that is queued, or none
  unfoldable pub accept : String → RequestContent → Checked → Option RequestJob
  unfolding enqueue_request
  accept user content (valid map) = some (enqueue_request calculate_job_id user content (some map))
  accept user content (bad_request errors) = none
  accept user content thrown = none

  module _ (metadata_json : Codec AssetMetadata) (redis : Redis) where
    -- The handlers broadcast, reply, update and profile, which validate the assets, and reaction and
    -- delete, which do not
    unfoldable pub handle : redis.Db → String → RequestContent → Option RequestJob
    unfolding accept enqueue_request validate_assets_and_fetch_metadata
    handle db user (broadcast note) = accept user (broadcast note) (
        validate_assets_and_fetch_metadata metadata_json redis db
          (record { profile_part = none; content_part = some note }))
    handle db user (reply in_reply_to note) = accept user (reply in_reply_to note) (
        validate_assets_and_fetch_metadata metadata_json redis db
          (record { profile_part = none; content_part = some note }))
    handle db user (update target hash note) = accept user (update target hash note) (
        validate_assets_and_fetch_metadata metadata_json redis db
          (record { profile_part = none; content_part = some note }))
    handle db user (profile activity) = accept user (profile activity) (
        validate_assets_and_fetch_metadata metadata_json redis db
          (record { profile_part = some activity; content_part = none }))
    handle db user (reaction emoji apply in_reply_to) =
        some (enqueue_request calculate_job_id user (reaction emoji apply in_reply_to) none)
    handle db user (tombstone target hash) =
        some (enqueue_request calculate_job_id user (tombstone target hash) none)

module _ (calculate_job_id : RequestJob → String) (metadata_json : Codec AssetMetadata)
    (redis : Redis) where
  abbrev HasMap : redis.Db → AssetIncludedRequest → Option (List (String × String)) → Type 0
  HasMap db parts types =
      (map : List (String × String)) × (types ≡ some map)
      × IsChecked metadata_json redis db parts map

  abbrev of_note : NoteActivityDto → AssetIncludedRequest
  of_note note = record { profile_part = none; content_part = some note }

  -- The mime types of a job: those of the assets that the note or the profile of the request names,
  -- and none for a reaction or a tombstone
  abbrev pub AreChecked : redis.Db → RequestContent → Option (List (String × String)) → Type 0
  AreChecked db (broadcast note) types = HasMap db (of_note note) types
  AreChecked db (reply in_reply_to note) types = HasMap db (of_note note) types
  AreChecked db (reaction emoji apply in_reply_to) types = types ≡ none
  AreChecked db (update target hash note) types = HasMap db (of_note note) types
  AreChecked db (profile activity) types =
      HasMap db (record { profile_part = some activity; content_part = none }) types
  AreChecked db (tombstone target hash) types = types ≡ none

  -- The job is the request's, with no attempt yet, an id that does not depend on the store, and
  -- metadata for each of its assets.
  abbrev pub IsJobOf : redis.Db → String → RequestContent → RequestJob → Type 0
  IsJobOf db user content job =
      (job.content ≡ content)
      × (job.dsnp_user_id ≡ user)
      × (job.dependency_attempt ≡ 0)
      × (job.id ≡ calculate_job_id (record job { id = ""; asset_to_mime_type = none }))
      × AreChecked db content job.asset_to_mime_type

  accept-IsJobOf :
      (db : redis.Db) (user : String) (content : RequestContent) (checked : Checked)
      (job : RequestJob)
      → ((map : List (String × String)) → checked ≡ valid map → AreChecked db content (some map))
      → accept calculate_job_id user content checked ≡ some job
      → IsJobOf db user content job
  unfolding accept enqueue_request
  accept-IsJobOf db user content (valid map) job h e =
      subst (IsJobOf db user content) (some-injective _ _ e) (refl, refl, refl, refl, h map refl)
  accept-IsJobOf db user content (bad_request errors) job h e = absurd (none-ne-some job e)
  accept-IsJobOf db user content thrown job h e = absurd (none-ne-some job e)

  validated :
      (db : redis.Db) (parts : AssetIncludedRequest) (map : List (String × String))
      → validate_assets_and_fetch_metadata metadata_json redis db parts ≡ valid map
      → HasMap db parts (some map)
  validated db parts map e =
      (map, refl, validate_assets_and_fetch_metadata-IsChecked metadata_json redis db parts map e)

  pub handle-IsJobOf :
      (db : redis.Db) (user : String) (content : RequestContent) (job : RequestJob)
      → handle calculate_job_id metadata_json redis db user content ≡ some job
      → IsJobOf db user content job
  unfolding handle enqueue_request
  handle-IsJobOf db user (broadcast note) job e =
      accept-IsJobOf db user (broadcast note) _ job (validated db (of_note note)) e
  handle-IsJobOf db user (reply in_reply_to note) job e =
      accept-IsJobOf db user (reply in_reply_to note) _ job (validated db (of_note note)) e
  handle-IsJobOf db user (update target hash note) job e =
      accept-IsJobOf db user (update target hash note) _ job (validated db (of_note note)) e
  handle-IsJobOf db user (profile activity) job e =
      accept-IsJobOf db user (profile activity) _ job
        (validated db (record { profile_part = some activity; content_part = none })) e
  handle-IsJobOf db user (reaction emoji apply in_reply_to) job e =
      subst (IsJobOf db user (reaction emoji apply in_reply_to)) (some-injective _ _ e)
        (refl, refl, refl, refl, refl)
  handle-IsJobOf db user (tombstone target hash) job e =
      subst (IsJobOf db user (tombstone target hash)) (some-injective _ _ e)
        (refl, refl, refl, refl, refl)
