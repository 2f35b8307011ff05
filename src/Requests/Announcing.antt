-- ===== src/Requests/Announcing.antt =====
-- The announcements that DsnpAnnouncementProcessor makes of the requests, and their queues:
-- apps/worker/src/request_processor/dsnp.announcement.processor.ts.
pub mod Dispatch
pub mod Media
use content_publishing_servi.Common.{
  ℕ, String, ◌+++◌, Option, none, some, List, [], ◌==ₛ◌, if◌then◌else◌, or_else, ◌>>=◌,
}
use content_publishing_servi.Queues.{
  broadcast_queue_name, reply_queue_name, reaction_queue_name, update_queue_name,
  profile_queue_name, tombstone_queue_name,
}
use content_publishing_servi.Dsnp.{
  AnnouncementType, broadcast_type, reply_type, Announcement, create_tombstone, create_broadcast,
  create_reply, create_reaction, create_profile, create_update,
}
use content_publishing_servi.Requests.Content.{
  AssetReferenceDto, NoteActivityDto, ProfileActivityDto, RequestContent, broadcast, reply,
  reaction, update, profile, tombstone, RequestJob, ContentTag, Attachment, Note, Profile,
  MediaLink,
}
use content_publishing_servi.Requests.Urls.{get_ipfs_cid_placeholder}
use content_publishing_servi.Requests.Attachments.{
  Ipfs, prepare_tags, prepare_location, prepare_attachments, prepare_media_links,
}

-- The texts that the language makes: toISOString of a date that is read from a text (none if that
-- is no date), and the JSON of the objects
pub record Texts : Type 0 where
  pub iso_date : String → Option String
  pub note_json : Note → String
  pub profile_json : Profile → String

-- A job that is added to one of the six queues
pub record QueuedAnnouncement : Type 0 where
  pub queue_name : String
  pub name : String
  pub announcement : Announcement
  pub job_id : String

-- What prepareNote answers
pub record PinnedNote : Type 0 where
  pub cid : String
  pub ipfs_url : String
  pub hash : String

unfoldable pub get_announcement_type : String → Option AnnouncementType
get_announcement_type modifiable_announcement_type =
    if modifiable_announcement_type ==ₛ "broadcast"
    then some broadcast_type
    else if modifiable_announcement_type ==ₛ "reply"
    then some reply_type
    else none

-- createNote, with the options that prepareNote gives; it throws on a date that cannot be read
unfoldable pub create_note :
    Texts → NoteActivityDto → List ContentTag → List Attachment → Option Note
unfolding prepare_location
create_note texts content tags attachments = do
  published ← texts.iso_date (or_else content.published "")
  some (record {
    published = published;
    content = or_else content.content "";
    name = content.name;
    location = prepare_location content.location;
    tag = tags;
    attachment = attachments;
  })

-- The add of the queue…-methods
unfoldable pub queue_job : String → RequestContent → Announcement → QueuedAnnouncement
queue_job id (broadcast content) a = record {
  queue_name = broadcast_queue_name;
  name = "Broadcast Job - " +++ id;
  announcement = a;
  job_id = id;
}
queue_job id (reply in_reply_to content) a = record {
  queue_name = reply_queue_name;
  name = "Reply Job - " +++ id;
  announcement = a;
  job_id = id;
}
queue_job id (reaction emoji apply in_reply_to) a = record {
  queue_name = reaction_queue_name;
  name = "Reaction Job - " +++ id;
  announcement = a;
  job_id = id;
}
queue_job id (update target hash content) a = record {
  queue_name = update_queue_name;
  name = "Update Job - " +++ id;
  announcement = a;
  job_id = id;
}
queue_job id (profile content) a = record {
  queue_name = profile_queue_name;
  name = "Profile Job - " +++ id;
  announcement = a;
  job_id = id;
}
queue_job id (tombstone target hash) a = record {
  queue_name = tombstone_queue_name;
  name = "Tombstone Job - " +++ id;
  announcement = a;
  job_id = id;
}

module _ (ipfs : Ipfs) (texts : Texts) where
  -- pinBufferToIPFS and formIpfsUrl
  unfoldable pub pin_text : String → Option PinnedNote
  unfolding get_ipfs_cid_placeholder
  pin_text text = do
    pinned ← ipfs.pin text
    some (record {
      cid = pinned.0;
      ipfs_url = get_ipfs_cid_placeholder ipfs.gateway_url pinned.0;
      hash = pinned.1;
    })

  unfoldable pub prepare_note :
      NoteActivityDto → Option (List (String × String)) → Option PinnedNote
  unfolding prepare_tags prepare_attachments create_note pin_text
  prepare_note content asset_to_mime_type = do
    tags ← prepare_tags content.tag
    attachments ← prepare_attachments ipfs content.assets asset_to_mime_type
    note ← create_note texts content tags attachments
    pin_text (texts.note_json note)

  unfoldable pub process_broadcast :
      NoteActivityDto → String → Option (List (String × String)) → Option Announcement
  unfolding prepare_note
  process_broadcast content dsnp_user_id asset_to_mime_type = do
    note ← prepare_note content asset_to_mime_type
    some (create_broadcast dsnp_user_id note.ipfs_url note.hash)

  unfoldable pub process_reply :
      String → NoteActivityDto → String → Option (List (String × String)) → Option Announcement
  unfolding prepare_note
  process_reply in_reply_to content dsnp_user_id asset_to_mime_type = do
    note ← prepare_note content asset_to_mime_type
    some (create_reply dsnp_user_id note.ipfs_url note.hash in_reply_to)

  unfoldable pub process_update :
      NoteActivityDto
      → AnnouncementType
      → String
      → String
      → Option (List (String × String))
      → Option Announcement
  unfolding prepare_note
  process_update content target_type target_content_hash dsnp_user_id asset_to_mime_type = do
    note ← prepare_note content asset_to_mime_type
    some (create_update dsnp_user_id note.ipfs_url note.hash target_type target_content_hash)

  -- prepareProfileIconAttachments runs first, then the tags are prepared
  unfoldable pub process_profile :
      ProfileActivityDto → String → Option (List (String × String)) → Option Announcement
  unfolding prepare_media_links prepare_location prepare_tags pin_text
  process_profile content dsnp_user_id asset_to_mime_type = do
    attachments ← prepare_media_links ipfs asset_to_mime_type (some (or_else content.icon []))
    tags ← prepare_tags content.tag
    pinned ← pin_text (
        texts.profile_json (record {
          name = content.name;
          published = content.published;
          location = prepare_location content.location;
          summary = content.summary;
          icon = attachments;
          tag = tags;
        }))
    some (create_profile dsnp_user_id pinned.ipfs_url pinned.hash)

  -- The announcement that a queue…-method makes, before it is added
  unfoldable pub announcement_of :
      String → Option (List (String × String)) → RequestContent → Option Announcement
  unfolding process_broadcast process_reply process_update process_profile get_announcement_type
  announcement_of user mime_types (broadcast content) = process_broadcast content user mime_types
  announcement_of user mime_types (reply in_reply_to content) =
      process_reply in_reply_to content user mime_types
  announcement_of user mime_types (reaction emoji apply in_reply_to) =
      some (create_reaction user emoji in_reply_to apply)
  announcement_of user mime_types (update target hash content) = do
    target_type ← get_announcement_type target
    process_update content target_type (or_else hash "") user mime_types
  announcement_of user mime_types (profile content) = process_profile content user mime_types
  announcement_of user mime_types (tombstone target hash) = do
    target_type ← get_announcement_type target
    some (create_tombstone user target_type (or_else hash ""))

  -- collectAnnouncementAndQueue up to the queue's answer: the job that is added; none if it throws
  unfoldable pub collect_announcement_and_queue : RequestJob → Option QueuedAnnouncement
  unfolding announcement_of queue_job
  collect_announcement_and_queue job = do
    announcement ← announcement_of job.dsnp_user_id job.asset_to_mime_type job.content
    some (queue_job job.id job.content announcement)
