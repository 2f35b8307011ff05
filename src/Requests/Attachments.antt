-- ===== src/Requests/Attachments.antt =====
-- prepareTags, prepareLocation and prepareAttachments of
-- apps/worker/src/request_processor/dsnp.announcement.processor.ts.
use mathlib.Core.List.{Perm}
use content_publishing_servi.Common.{
  String, Option, none, some, List, [], ◌∷◌, ◌==ₛ◌, if◌then◌else◌, or_else, ◌>>=◌,
}
use content_publishing_servi.Requests.Content.{
  LocationDto, AssetReferenceDto, TagDto, AssetDto, ContentTag, hashtag, mention, ContentLocation,
  MediaLink, AudioLink, Attachment, link, image, video, audio,
}
use content_publishing_servi.Requests.Urls.{get_ipfs_cid_placeholder}

-- What the processor calls: the pinned content (an empty one if nothing is pinned; none if the call
-- is rejected), the pinning of a content, which answers its cid and hash, and the content's hash.
-- The order of completion is that of the requests that run at one time.
pub record Ipfs : Type 1 where
  pub gateway_url : String
  pub get_pinned : String → Option String
  pub pin : String → Option (String × String)
  pub calculate_dsnp_hash : String → String
  pub in_order_of_completion : {A : Type 0} → List A → List A
  pub in_order_of_completion-Perm : {A : Type 0} (xs : List A) → Perm (in_order_of_completion xs) xs

-- Promise.all: one rejection rejects it
unfoldable pub all : {A : Type 0} → List (Option A) → Option (List A)
all [] = some []
all (p ∷ ps) = do a ← p; rest ← all ps; some (a ∷ rest)

unfoldable pub each : {A B : Type 0} → (A → Option B) → List A → List (Option B)
each f [] = []
each f (a ∷ rest) = f a ∷ each f rest

-- One tag of prepareTags' forEach; none if the type is not supported
unfoldable pub prepare_tag : TagDto → Option ContentTag
prepare_tag tag =
    if tag.type_name ==ₛ "hashtag"
    then some (hashtag tag.name)
    else if tag.type_name ==ₛ "mention"
    then some (mention tag.name tag.mentioned_id)
    else none

unfoldable pub prepare_tags : Option (List TagDto) → Option (List ContentTag)
unfolding all each prepare_tag
prepare_tags none = some []
prepare_tags (some tags) = all (each prepare_tag tags)

unfoldable pub prepare_location : Option LocationDto → Option ContentLocation
prepare_location none = none
prepare_location (some location) = some (record {
  latitude = location.latitude;
  longitude = location.longitude;
  radius = location.radius;
  altitude = location.altitude;
  accuracy = location.accuracy;
  name = location.name;
  units = location.units;
})

-- assetToMimeType[referenceId]
unfoldable pub mime_type_of : List (String × String) → String → Option String
mime_type_of [] reference_id = none
mime_type_of ((id, mime_type) ∷ rest) reference_id =
    let later = mime_type_of rest reference_id in
    if id ==ₛ reference_id then some mime_type else later

-- asset.href || ''
unfoldable pub prepare_link_attachment : AssetDto → Attachment
prepare_link_attachment asset = link (or_else asset.href "") asset.name

-- `duration ? reference.duration : ''` over the references
unfoldable pub next_video_duration : Option String → Option String → Option String
next_video_duration none reference_duration = some ""
next_video_duration (some duration) reference_duration =
    if duration ==ₛ "" then some "" else reference_duration

unfoldable pub video_duration : Option String → List AssetReferenceDto → Option String
unfolding next_video_duration
video_duration duration [] = duration
video_duration duration (reference ∷ rest) =
    video_duration (next_video_duration duration reference.duration) rest

-- `duration ?? reference.duration ?? ''`: the duration is a text from the start
unfoldable pub audio_duration : String → List AssetReferenceDto → String
audio_duration duration [] = duration
audio_duration duration (reference ∷ rest) =
    audio_duration (or_else (some duration) (or_else reference.duration "")) rest

module _ (ipfs : Ipfs) where
  abbrev form_ipfs_url : String → String
  form_ipfs_url cid = get_ipfs_cid_placeholder ipfs.gateway_url cid

  -- The callback for one reference of an image, a video or an icon
  unfoldable pub prepare_media_link :
      Option (List (String × String)) → AssetReferenceDto → Option MediaLink
  unfolding get_ipfs_cid_placeholder mime_type_of
  prepare_media_link none reference = none
  prepare_media_link (some mime_types) reference = do
    content ← ipfs.get_pinned reference.reference_id
    some (record {
      media_type = mime_type_of mime_types reference.reference_id;
      hash = ipfs.calculate_dsnp_hash content;
      height = reference.height;
      width = reference.width;
      href = form_ipfs_url reference.reference_id;
    })

  unfoldable pub prepare_audio_link :
      Option (List (String × String)) → AssetReferenceDto → Option AudioLink
  unfolding get_ipfs_cid_placeholder mime_type_of
  prepare_audio_link none reference = none
  prepare_audio_link (some mime_types) reference = do
    content ← ipfs.get_pinned reference.reference_id
    some (record {
      media_type = mime_type_of mime_types reference.reference_id;
      hash = ipfs.calculate_dsnp_hash content;
      href = form_ipfs_url reference.reference_id;
    })

  -- The links are pushed as their requests complete.
  unfoldable pub prepare_media_links :
      Option (List (String × String)) → Option (List AssetReferenceDto) → Option (List MediaLink)
  unfolding all each prepare_media_link
  prepare_media_links mime_types none = some []
  prepare_media_links mime_types (some references) =
      all (each (prepare_media_link mime_types) (ipfs.in_order_of_completion references))

  unfoldable pub prepare_audio_links :
      Option (List (String × String)) → Option (List AssetReferenceDto) → Option (List AudioLink)
  unfolding all each prepare_audio_link
  prepare_audio_links mime_types none = some []
  prepare_audio_links mime_types (some references) =
      all (each (prepare_audio_link mime_types) (ipfs.in_order_of_completion references))

  unfoldable pub prepare_image_attachment :
      Option (List (String × String)) → AssetDto → Option Attachment
  unfolding prepare_media_links
  prepare_image_attachment mime_types asset = do
    links ← prepare_media_links mime_types asset.references
    some (image asset.name links)

  unfoldable pub prepare_video_attachment :
      Option (List (String × String)) → AssetDto → Option Attachment
  unfolding prepare_media_links video_duration
  prepare_video_attachment mime_types asset = do
    links ← prepare_media_links mime_types asset.references
    some (
        video asset.name links
          (video_duration (some "") (ipfs.in_order_of_completion (or_else asset.references []))))

  unfoldable pub prepare_audio_attachment :
      Option (List (String × String)) → AssetDto → Option Attachment
  unfolding prepare_audio_links audio_duration
  prepare_audio_attachment mime_types asset = do
    links ← prepare_audio_links mime_types asset.references
    some (
        audio asset.name links
          (audio_duration "" (ipfs.in_order_of_completion (or_else asset.references []))))

  -- The callback for one asset; none if it is rejected
  unfoldable pub prepare_attachment : Option (List (String × String)) → AssetDto → Option Attachment
  unfolding prepare_link_attachment prepare_image_attachment prepare_video_attachment
      prepare_audio_attachment
  prepare_attachment mime_types asset =
      if asset.type_name ==ₛ "link"
      then some (prepare_link_attachment asset)
      else if asset.type_name ==ₛ "image"
      then prepare_image_attachment mime_types asset
      else if asset.type_name ==ₛ "video"
      then prepare_video_attachment mime_types asset
      else if asset.type_name ==ₛ "audio"
      then prepare_audio_attachment mime_types asset
      else none

  unfoldable pub prepare_attachments :
      Option (List AssetDto) → Option (List (String × String)) → Option (List Attachment)
  unfolding all each prepare_attachment
  prepare_attachments none mime_types = some []
  prepare_attachments (some assets) mime_types =
      all (each (prepare_attachment mime_types) (ipfs.in_order_of_completion assets))
