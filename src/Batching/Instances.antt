-- ===== src/Batching/Instances.antt =====
-- Codecs for the metadata of a batch and for announcements, which meet what the model assumes of
-- JSON texts.
use content_publishing_servi.Common.{ℕ, zero, suc, String, Option, ◌≡◌, refl}
use content_publishing_servi.Services.Codec.{Codec}
use content_publishing_servi.Services.Formats.{number, plain_text, both, along, optional, codec_of}
use content_publishing_servi.Dsnp.{
  AnnouncementType, tombstone_type, broadcast_type, reply_type, reaction_type, profile_type,
  update_type, public_follows_type, AnnouncementFields, tombstone, broadcast, reply, reaction,
  profile, update, Announcement,
}
use content_publishing_servi.Batching.Metadata.{BatchMetadata}

abbrev pub MetadataParts : Type 0
MetadataParts = String × (ℕ × (Option ℕ × Option ℕ))

abbrev pub metadata_to : BatchMetadata → MetadataParts
metadata_to m = (m.batch_id, (m.start_timestamp, (m.row_count, m.lock_timestamp)))

abbrev pub metadata_from : MetadataParts → BatchMetadata
metadata_from (batch_id, (start, (count, lock))) = record {
  batch_id = batch_id;
  start_timestamp = start;
  row_count = count;
  lock_timestamp = lock;
}

pub metadata_from-to : (m : BatchMetadata) → metadata_from (metadata_to m) ≡ m
metadata_from-to m = refl

unfoldable pub metadata_codec : Codec BatchMetadata
unfolding codec_of along both optional number plain_text
metadata_codec = codec_of (
    along (both plain_text (both number (both (optional 0 number) (optional 0 number)))) metadata_to
      metadata_from metadata_from-to)

abbrev pub type_from : ℕ → AnnouncementType
type_from zero = tombstone_type
type_from (suc zero) = public_follows_type
type_from (suc (suc zero)) = broadcast_type
type_from (suc (suc (suc zero))) = reply_type
type_from (suc (suc (suc (suc zero)))) = reaction_type
type_from (suc (suc (suc (suc (suc zero))))) = profile_type
type_from n = update_type

abbrev pub type_to : AnnouncementType → ℕ
type_to tombstone_type = 0
type_to public_follows_type = 1
type_to broadcast_type = 2
type_to reply_type = 3
type_to reaction_type = 4
type_to profile_type = 5
type_to update_type = 6

pub type_from-to : (t : AnnouncementType) → type_from (type_to t) ≡ t
type_from-to tombstone_type = refl
type_from-to public_follows_type = refl
type_from-to broadcast_type = refl
type_from-to reply_type = refl
type_from-to reaction_type = refl
type_from-to profile_type = refl
type_from-to update_type = refl

-- The constructor, the announcement's texts, and a number.
abbrev pub AnnouncementParts : Type 0
AnnouncementParts = ℕ × (String × (String × (String × (String × ℕ))))

abbrev pub announcement_to : String → AnnouncementFields → AnnouncementParts
announcement_to id (tombstone f) =
    (0, (id, (f.target_content_hash, ("", ("", type_to f.target_announcement_type)))))
announcement_to id (broadcast f) = (1, (id, (f.content_hash, (f.url, ("", 0)))))
announcement_to id (reply f) = (2, (id, (f.content_hash, (f.in_reply_to, (f.url, 0)))))
announcement_to id (reaction f) = (3, (id, (f.emoji, (f.in_reply_to, ("", f.apply)))))
announcement_to id (profile f) = (4, (id, (f.content_hash, (f.url, ("", 0)))))
announcement_to id (update f) = (
  5,
  (id, (f.content_hash, (f.target_content_hash, (f.url, type_to f.target_announcement_type)))),
)

abbrev pub fields_from : ℕ → String → String → String → ℕ → AnnouncementFields
fields_from zero a b c n =
    tombstone (record { target_announcement_type = type_from n; target_content_hash = a })
fields_from (suc zero) a b c n = broadcast (record { content_hash = a; url = b })
fields_from (suc (suc zero)) a b c n = reply (record { content_hash = a; in_reply_to = b; url = c })
fields_from (suc (suc (suc zero))) a b c n =
    reaction (record { emoji = a; in_reply_to = b; apply = n })
fields_from (suc (suc (suc (suc zero)))) a b c n = profile (record { content_hash = a; url = b })
fields_from (suc (suc (suc (suc (suc k))))) a b c n = update (record {
  content_hash = a;
  target_announcement_type = type_from n;
  target_content_hash = b;
  url = c;
})

abbrev pub announcement_from : AnnouncementParts → Announcement
announcement_from (tag, (id, (a, (b, (c, n))))) = record {
  from_id = id;
  fields = fields_from tag a b c n;
}

pub announcement_from-to :
    (id : String) (f : AnnouncementFields)
    → announcement_from (announcement_to id f) ≡ record { from_id = id; fields = f }
announcement_from-to id (tombstone f) = rw (type_from-to f.target_announcement_type)
announcement_from-to id (broadcast f) = refl
announcement_from-to id (reply f) = refl
announcement_from-to id (reaction f) = refl
announcement_from-to id (profile f) = refl
announcement_from-to id (update f) = rw (type_from-to f.target_announcement_type)

unfoldable pub announcement_codec : Codec Announcement
unfolding codec_of along both number plain_text
announcement_codec = codec_of (
    along
      (both number (both plain_text (both plain_text (both plain_text (both plain_text number)))))
      (λ (a : Announcement). announcement_to a.from_id a.fields) announcement_from
      (λ a. announcement_from-to a.from_id a.fields))
