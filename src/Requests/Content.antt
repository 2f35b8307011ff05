-- ===== src/Requests/Content.antt =====
-- The content of the requests, libs/common/src/dtos/activity.dto.ts and announcement.dto.ts, and the
-- ActivityStreams objects made of it. A number is given by its JSON text: the program only passes
-- it on.
use content_publishing_servi.Common.{ℕ, String, Option, List}

pub record LocationDto : Type 0 where
  pub name : String
  pub accuracy : Option String
  pub altitude : Option String
  pub latitude : Option String
  pub longitude : Option String
  pub radius : Option String
  pub units : Option String

pub record AssetReferenceDto : Type 0 where
  pub reference_id : String
  pub height : Option String
  pub width : Option String
  pub duration : Option String

-- type: the enum's text, or another one
pub record TagDto : Type 0 where
  pub type_name : String
  pub name : Option String
  pub mentioned_id : Option String

pub record AssetDto : Type 0 where
  pub type_name : String
  pub references : Option (List AssetReferenceDto)
  pub name : Option String
  pub href : Option String

pub record NoteActivityDto : Type 0 where
  pub name : Option String
  pub tag : Option (List TagDto)
  pub location : Option LocationDto
  pub content : Option String
  pub published : Option String
  pub assets : Option (List AssetDto)

pub record ProfileActivityDto : Type 0 where
  pub name : Option String
  pub tag : Option (List TagDto)
  pub location : Option LocationDto
  pub icon : Option (List AssetReferenceDto)
  pub summary : Option String
  pub published : Option String

-- RequestTypeDto; the constructor is the job's announcementType
pub data RequestContent : Type 0 where
  broadcast : NoteActivityDto → RequestContent
  reply : String → NoteActivityDto → RequestContent
  reaction : String → ℕ → String → RequestContent
  update : String → Option String → NoteActivityDto → RequestContent
  profile : ProfileActivityDto → RequestContent
  tombstone : String → Option String → RequestContent

-- IRequestJob
pub record RequestJob : Type 0 where
  pub id : String
  pub dsnp_user_id : String
  pub asset_to_mime_type : Option (List (String × String))
  pub content : RequestContent
  pub dependency_attempt : ℕ

-- ActivityContentTag
pub data ContentTag : Type 0 where
  hashtag : Option String → ContentTag
  mention : Option String → Option String → ContentTag

-- Place
pub record ContentLocation : Type 0 where
  pub latitude : Option String
  pub longitude : Option String
  pub radius : Option String
  pub altitude : Option String
  pub accuracy : Option String
  pub name : String
  pub units : Option String

-- The links of images and videos, and of audio without height and width
pub record MediaLink : Type 0 where
  pub media_type : Option String
  pub hash : String
  pub height : Option String
  pub width : Option String
  pub href : String

pub record AudioLink : Type 0 where
  pub media_type : Option String
  pub hash : String
  pub href : String

-- ActivityContentAttachment
pub data Attachment : Type 0 where
  link : String → Option String → Attachment
  image : Option String → List MediaLink → Attachment
  video : Option String → List MediaLink → Option String → Attachment
  audio : Option String → List AudioLink → String → Attachment

-- ActivityContentNote
pub record Note : Type 0 where
  pub published : String
  pub content : String
  pub name : Option String
  pub location : Option ContentLocation
  pub tag : List ContentTag
  pub attachment : List Attachment

-- ActivityContentProfile
pub record Profile : Type 0 where
  pub name : Option String
  pub published : Option String
  pub location : Option ContentLocation
  pub summary : Option String
  pub icon : List MediaLink
  pub tag : List ContentTag
