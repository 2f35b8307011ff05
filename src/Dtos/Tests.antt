-- ===== src/Dtos/Tests.antt =====
-- The rules on a broadcast with a video, a hashtag and a mention.
use content_publishing_servi.Common.{none, some, [], ◌∷◌, true, false, ◌≡◌, refl}
use content_publishing_servi.Uris.{is_dsnp_user_uri, is_dsnp_content_uri, validate_content_hash}
use content_publishing_servi.Requests.Instances.{ipfs, texts}
use content_publishing_servi.Requests.Content.{broadcast, update, tombstone, reaction}
use content_publishing_servi.Requests.Announcing.{
  QueuedAnnouncement, collect_announcement_and_queue,
}
use content_publishing_servi.Dtos.{request_is_valid}
use content_publishing_servi.Dtos.Patterns.{matches, duration_regex}
use content_publishing_servi.Dtos.Accepted.{collect_announcement_and_queue-accepted}
use content_publishing_servi.Dtos.Samples.{
  sample_validators, clip, note_with, two_tags, tag, sample_job,
}

sample_is_valid : request_is_valid sample_validators sample_job.content ≡ true
unfolding request_is_valid is_dsnp_user_uri
sample_is_valid = refl

-- Two references of one asset have two ids, a mention names a user, and updates are of broadcasts and
-- replies.
refused :
    (request_is_valid sample_validators (broadcast (note_with [] (clip ∷ clip ∷ []))) ≡ false)
    × (request_is_valid sample_validators (broadcast (note_with [] [])) ≡ false)
    × (request_is_valid sample_validators
          (broadcast (note_with (tag "mention" none (some "dsnp://01") ∷ []) (clip ∷ [])))
        ≡ false)
    × (request_is_valid sample_validators
          (update "profile" (some "h") (note_with two_tags (clip ∷ [])))
        ≡ false)
    × (request_is_valid sample_validators (tombstone "reply" (some "")) ≡ false)
unfolding request_is_valid is_dsnp_user_uri validate_content_hash
refused = (refl, refl, refl, refl, refl)

-- A reaction is an emoji.
reactions :
    (request_is_valid sample_validators (reaction "😀" 255 "dsnp://1/h") ≡ true)
    × (request_is_valid sample_validators (reaction "😀" 256 "dsnp://1/h") ≡ false)
    × (request_is_valid sample_validators (reaction "x" 1 "dsnp://1/h") ≡ false)
unfolding request_is_valid is_dsnp_content_uri
reactions = (refl, refl, refl)

durations :
    (matches duration_regex "-P1Y2M3DT4H5M6.7S" ≡ true)
    × (matches duration_regex "P" ≡ true)
    × (matches duration_regex "P5S" ≡ false)
    × (matches duration_regex "PT1.S" ≡ false)
    × (matches duration_regex "1Y" ≡ false)
unfolding matches
durations = (refl, refl, refl, refl, refl)

collect_announcement_and_queue-accepted_example :
    (q : QueuedAnnouncement) × (collect_announcement_and_queue ipfs texts sample_job ≡ some q)
collect_announcement_and_queue-accepted_example =
    collect_announcement_and_queue-accepted sample_validators ipfs texts (λ cid. (_, refl))
      (λ text. (_, refl)) sample_job sample_is_valid ((_, refl), (_, refl))
