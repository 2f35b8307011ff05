-- ===== src/Pipeline/Queueing/Tests.antt =====
-- The broadcast of a video whose metadata are stored.
use content_publishing_servi.Common.{some, true, ◌≡◌, refl}
use content_publishing_servi.Services.Redis.{string}
use content_publishing_servi.Services.Memory.{memory, Store, put, empty_store}
use content_publishing_servi.Services.Formats.{number, plain_text, both, along, codec_of}
use content_publishing_servi.Uris.{is_dsnp_user_uri}
use content_publishing_servi.Requests.Announcing.{QueuedAnnouncement}
use content_publishing_servi.Requests.Instances.{ipfs, texts}
use content_publishing_servi.Requests.Dependencies.{JobAnswers, queued, process, assets_of}
use content_publishing_servi.Requests.Dependencies.Waiting.{ArePinned}
use content_publishing_servi.Api.{get_asset_metadata_key}
use content_publishing_servi.Api.Instances.{asset_codec}
use content_publishing_servi.Api.Controllers.{handle}
use content_publishing_servi.Dtos.{request_is_valid}
use content_publishing_servi.Dtos.Samples.{sample_validators, sample_job}
use content_publishing_servi.Pipeline.Queueing.{handle-queued}

abbrev stored : Store
stored = put empty_store (get_asset_metadata_key "clip") (
    string
      (asset_codec.encode (record { ipfs_cid = "clip"; mime_type = "video/mp4"; created_on = 5 })))

abbrev answers : JobAnswers
answers = record { now = 0; moves = true; stores = true; adds = true }

well_formed : request_is_valid sample_validators sample_job.content ≡ true
unfolding request_is_valid is_dsnp_user_uri
well_formed = refl

accepted : handle (λ job. "r1") asset_codec memory stored "1" sample_job.content ≡ some sample_job
unfolding handle get_asset_metadata_key codec_of along both number plain_text
accepted = refl

pinned : ArePinned ipfs texts (assets_of sample_job.asset_to_mime_type)
unfolding assets_of
pinned = (("content", refl, refl), tt)

handle-queued_example :
    (q : QueuedAnnouncement) × (process ipfs texts 5 answers
        (record sample_job { dependency_attempt = 3 })
      ≡ queued q)
handle-queued_example =
    handle-queued ipfs texts (λ job. "r1") asset_codec memory sample_validators (λ cid. (_, refl))
      (λ text. (_, refl)) stored "1" sample_job.content sample_job 3 5 answers well_formed accepted
      (_, refl) pinned refl
