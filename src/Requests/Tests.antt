-- ===== src/Requests/Tests.antt =====
-- Requests on services that are plain functions.
use mathlib.Core.List.{Perm, Memᴰ}
use content_publishing_servi.Common.{
  String, Option, none, some, List, [], ◌∷◌, true, ◌≡◌, refl, Paired,
}
use content_publishing_servi.Queues.{announcement_to_queue_name, AnnouncementTypeDto}
use content_publishing_servi.Dsnp.{announcement_type, broadcast_type, create_broadcast}
use content_publishing_servi.Requests.Instances.{ipfs, texts}
use content_publishing_servi.Requests.Content.{
  AssetReferenceDto, AssetDto, NoteActivityDto, RequestJob, broadcast, Attachment, video,
}
use content_publishing_servi.Requests.Attachments.{all, each, prepare_attachments}
use content_publishing_servi.Requests.Announcing.{
  QueuedAnnouncement, collect_announcement_and_queue,
}
use content_publishing_servi.Requests.Announcing.Dispatch.{collect_announcement_and_queue-dispatch}
use content_publishing_servi.Requests.Announcing.Media.{Describes, prepare_attachments-Describes}
use content_publishing_servi.Requests.Dependencies.{
  JobAnswers, queued, failed, process, run_all, assets_of, some_missing,
}
use content_publishing_servi.Requests.Dependencies.Waiting.{
  IsPinned, contents_of, run_all-missing, process-queued,
}

abbrev reference : AssetReferenceDto
reference = record { reference_id = "clip"; height = none; width = none; duration = some "PT5S" }

abbrev clip : AssetDto
clip = record {
  type_name = "video";
  references = some (reference ∷ []);
  name = some "clip";
  href = none;
}

abbrev note : NoteActivityDto
note = record {
  name = none;
  tag = none;
  location = none;
  content = some "hello";
  published = some "2024-01-01T00:00:00.000Z";
  assets = some (clip ∷ []);
}

abbrev mime_types : Option (List (String × String))
mime_types = some (("clip", "video/mp4") ∷ [])

abbrev job : RequestJob
job = record {
  id = "r1";
  dsnp_user_id = "1";
  asset_to_mime_type = mime_types;
  content = broadcast note;
  dependency_attempt = 0;
}

abbrev attachments : List Attachment
attachments =
    video (some "clip")
      (record {
        media_type = some "video/mp4";
        hash = "h";
        height = none;
        width = none;
        href = "http://host/ipfs/clip";
      }
        ∷ [])
      (some "")
    ∷ []

abbrev expected : QueuedAnnouncement
expected = record {
  queue_name = "broadcastQueue";
  name = "Broadcast Job - r1";
  announcement = create_broadcast "1" "http://host/ipfs/bafy" "hash";
  job_id = "r1";
}

prepared : prepare_attachments ipfs (some (clip ∷ [])) mime_types ≡ some attachments
unfolding prepare_attachments
prepared = refl

collected : collect_announcement_and_queue ipfs texts job ≡ some expected
unfolding collect_announcement_and_queue
collected = refl

abbrev answers : JobAnswers
answers = record { now = 0; moves = true; stores = true; adds = true }

processed : process ipfs texts 5 answers job ≡ queued expected
unfolding process
processed = refl

collect_announcement_and_queue-dispatch_example :
    (expected.queue_name ≡ announcement_to_queue_name AnnouncementTypeDto.broadcast)
    × (announcement_type expected.announcement ≡ broadcast_type)
    × (expected.announcement.from_id ≡ "1")
    × (expected.job_id ≡ "r1")
collect_announcement_and_queue-dispatch_example =
    collect_announcement_and_queue-dispatch ipfs texts job expected collected

prepare_attachments-Describes_example :
    (completed : List AssetDto) × Perm completed (clip ∷ [])
    × Paired (Describes ipfs mime_types) completed attachments
prepare_attachments-Describes_example =
    prepare_attachments-Describes ipfs mime_types (clip ∷ []) attachments prepared

process-queued_example :
    ((types : List (String × String)) (entry : String × String)
      → mime_types ≡ some types
      → Memᴰ entry types
      → IsPinned ipfs texts entry.0)
    × (collect_announcement_and_queue ipfs texts job ≡ some expected)
process-queued_example = process-queued ipfs texts 5 answers job expected processed

abbrev lost_job : RequestJob
lost_job = record job { asset_to_mime_type = some (("gone", "image/png") ∷ []) }

gone_answered : contents_of ipfs texts lost_job ≡ some ("" ∷ [])
unfolding all each assets_of
gone_answered = refl

gone_missing : some_missing ("" ∷ []) ≡ true
unfolding some_missing
gone_missing = refl

run_all-missing_example :
    run_all ipfs texts 6 5 1000 (record lost_job { dependency_attempt = 0 })
    ≡ (10000 ∷ 20000 ∷ 40000 ∷ [], failed)
run_all-missing_example =
    run_all-missing ipfs texts lost_job ("" ∷ []) gone_answered gone_missing 2 5 1000
