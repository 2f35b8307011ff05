-- ===== src/Dsnp.antt =====
-- The announcements of a batch file and their constructors: libs/common/src/interfaces/dsnp.ts.
use content_publishing_servi.Common.{ℕ, String}

-- enum AnnouncementType
pub data AnnouncementType : Type 0 where
  tombstone_type broadcast_type reply_type reaction_type profile_type update_type : AnnouncementType
  public_follows_type : AnnouncementType

-- The numbers of the enum.
unfoldable pub announcement_type_number : AnnouncementType → ℕ
announcement_type_number tombstone_type = 0
announcement_type_number broadcast_type = 2
announcement_type_number reply_type = 3
announcement_type_number reaction_type = 4
announcement_type_number profile_type = 5
announcement_type_number update_type = 6
announcement_type_number public_follows_type = 113

pub record TombstoneFields : Type 0 where
  pub target_announcement_type : AnnouncementType
  pub target_content_hash : String

pub record BroadcastFields : Type 0 where
  pub content_hash : String
  pub url : String

pub record ReplyFields : Type 0 where
  pub content_hash : String
  pub in_reply_to : String
  pub url : String

pub record ReactionFields : Type 0 where
  pub emoji : String
  pub in_reply_to : String
  pub apply : ℕ

pub record ProfileFields : Type 0 where
  pub content_hash : String
  pub url : String

pub record UpdateFields : Type 0 where
  pub content_hash : String
  pub target_announcement_type : AnnouncementType
  pub target_content_hash : String
  pub url : String

-- The union of the fields; its constructor is the announcement's announcementType.
pub data AnnouncementFields : Type 0 where
  tombstone : TombstoneFields → AnnouncementFields
  broadcast : BroadcastFields → AnnouncementFields
  reply : ReplyFields → AnnouncementFields
  reaction : ReactionFields → AnnouncementFields
  profile : ProfileFields → AnnouncementFields
  update : UpdateFields → AnnouncementFields

-- TypedAnnouncement
pub record Announcement : Type 0 where
  pub from_id : String
  pub fields : AnnouncementFields

abbrev type_of_fields : AnnouncementFields → AnnouncementType
type_of_fields (tombstone f) = tombstone_type
type_of_fields (broadcast f) = broadcast_type
type_of_fields (reply f) = reply_type
type_of_fields (reaction f) = reaction_type
type_of_fields (profile f) = profile_type
type_of_fields (update f) = update_type

-- announcement.announcementType
unfoldable pub announcement_type : Announcement → AnnouncementType
announcement_type a = type_of_fields a.fields

unfoldable pub create_tombstone : String → AnnouncementType → String → Announcement
create_tombstone from_id target_type target_content_hash = record {
  from_id = from_id;
  fields = tombstone (record {
    target_announcement_type = target_type;
    target_content_hash = target_content_hash;
  });
}

unfoldable pub create_broadcast : String → String → String → Announcement
create_broadcast from_id url hash = record {
  from_id = from_id;
  fields = broadcast (record { content_hash = hash; url = url });
}

unfoldable pub create_reply : String → String → String → String → Announcement
create_reply from_id url hash in_reply_to = record {
  from_id = from_id;
  fields = reply (record { content_hash = hash; in_reply_to = in_reply_to; url = url });
}

unfoldable pub create_reaction : String → String → String → ℕ → Announcement
create_reaction from_id emoji in_reply_to apply = record {
  from_id = from_id;
  fields = reaction (record { emoji = emoji; in_reply_to = in_reply_to; apply = apply });
}

unfoldable pub create_profile : String → String → String → Announcement
create_profile from_id url hash = record {
  from_id = from_id;
  fields = profile (record { content_hash = hash; url = url });
}

unfoldable pub create_update : String → String → String → AnnouncementType → String → Announcement
create_update from_id url hash target_type target_hash = record {
  from_id = from_id;
  fields = update (record {
    content_hash = hash;
    target_announcement_type = target_type;
    target_content_hash = target_hash;
    url = url;
  });
}
