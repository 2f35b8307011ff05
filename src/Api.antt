-- ===== src/Api.antt =====
-- ApiService of apps/api/src/api.service.ts: requests are queued, their assets checked, and assets
-- stored.
pub mod Validation
pub mod Naming
pub mod Assets
pub mod Controllers
pub mod Development
pub mod Instances
mod Tests
use Prim.Native.Char.{Char, code}
use content_publishing_servi.Common.{
  ◌==◌, ℕ, String, ◌+++◌, Option, none, some, List, [], ◌∷◌, ◌++◌, Bool, true, false, ◌==ₛ◌, ◌||◌,
  ◌&&◌, not, if◌then◌else◌, or_else, ◌>>=◌,
}
use content_publishing_servi.Services.Redis.{Redis, Entry, missing, string, hash}
use content_publishing_servi.Services.Codec.{Codec}
use content_publishing_servi.Queues.{
  AnnouncementTypeDto, profile, broadcast, reply, update, reaction, tombstone,
}
use content_publishing_servi.Requests.Content.{
  AssetReferenceDto, AssetDto, NoteActivityDto, ProfileActivityDto, RequestContent, RequestJob,
}

-- IAssetMetadata
pub record AssetMetadata : Type 0 where
  pub ipfs_cid : String
  pub mime_type : String
  pub created_on : ℕ

-- IAssetJob, as it is queued under the asset's cid
pub record AssetJob : Type 0 where
  pub ipfs_cid : String
  pub mime_type : String
  pub content_location : String
  pub metadata_location : String

-- A file of an upload
pub record File : Type 0 where
  pub buffer : String
  pub mime_type : String

pub record CheckItem : Type 0 where
  pub only_image : Bool
  pub reference_id : String

-- The two parts of a request that can name assets
pub record AssetIncludedRequest : Type 0 where
  pub profile_part : Option ProfileActivityDto
  pub content_part : Option NoteActivityDto

-- How the validation ends: with the mime types, with the errors of a bad request, or because a call
-- or the parsing of what is stored throws
pub data Checked : Type 0 where
  valid : List (String × String) → Checked
  bad_request : List String → Checked
  thrown : Checked

unfoldable pub get_asset_data_key : String → String
get_asset_data_key asset_id = "asset:data:" +++ asset_id

unfoldable pub get_asset_metadata_key : String → String
get_asset_metadata_key asset_id = "asset:metadata:" +++ asset_id

unfoldable pub is_asset_included_type : AnnouncementTypeDto → Bool
is_asset_included_type profile = true
is_asset_included_type broadcast = true
is_asset_included_type reply = true
is_asset_included_type update = true
is_asset_included_type reaction = false
is_asset_included_type tombstone = false

-- The job of enqueueRequest, whose id is made of the job without an id and without the mime types
unfoldable pub enqueue_request :
    (RequestJob → String) → String → RequestContent → Option (List (String × String)) → RequestJob
enqueue_request calculate_job_id dsnp_user_id content asset_to_mime_type =
    let data_without_id : RequestJob = record {
      id = "";
      dsnp_user_id = dsnp_user_id;
      asset_to_mime_type = none;
      content = content;
      dependency_attempt = 0;
    } in
    record data_without_id {
      id = calculate_job_id data_without_id;
      asset_to_mime_type = asset_to_mime_type;
    }

unfoldable pub check_items : Bool → List AssetReferenceDto → List CheckItem
check_items only_image [] = []
check_items only_image (reference ∷ rest) =
    record { only_image = only_image; reference_id = reference.reference_id }
    ∷ check_items only_image rest

unfoldable pub asset_items : List AssetDto → List CheckItem
unfolding check_items
asset_items [] = []
asset_items (asset ∷ rest) = check_items false (or_else asset.references []) ++ asset_items rest

-- Where a profile is given the content is not looked at.
unfoldable pub checking_list : Option ProfileActivityDto → Option NoteActivityDto → List CheckItem
unfolding check_items asset_items
checking_list (some p) content = check_items true (or_else p.icon [])
checking_list none (some c) = asset_items (or_else c.assets [])
checking_list none none = []

-- What GET answers: null is some none; at a hash the call is rejected
unfoldable pub get_text : Entry → Option (Option String)
get_text missing = some none
get_text (string v) = some (some v)
get_text (hash fields) = none

-- One step of the loop, added to the result of the steps after it
unfoldable pub add_mime_type : String → String → Checked → Checked
add_mime_type reference_id mime_type (valid map) = valid ((reference_id, mime_type) ∷ map)
add_mime_type reference_id mime_type (bad_request errors) = bad_request errors
add_mime_type reference_id mime_type thrown = thrown

unfoldable pub add_error : String → Checked → Checked
add_error error (valid map) = bad_request (error ∷ [])
add_error error (bad_request errors) = bad_request (error ∷ errors)
add_error error thrown = thrown

-- A character is the letter of these two codes
abbrev is_letter : Char → ℕ → ℕ → Bool
is_letter c small capital = code c == small || code c == capital

-- mimeType.toLowerCase().startsWith('image'); no other characters than these have these small
-- letters
unfoldable pub is_image : String → Bool
is_image (String.◌∷◌ c (String.◌∷◌ d (String.◌∷◌ e (String.◌∷◌ f (String.◌∷◌ g rest))))) =
    is_letter c 105 73
    && is_letter d 109 77
    && is_letter e 97 65
    && is_letter f 103 71
    && is_letter g 101 69
is_image _ = false

module _ (metadata_json : Codec AssetMetadata) where
  -- What is done with the metadata of one item, once it is parsed; none if that throws
  unfoldable pub check_metadata : CheckItem → Option AssetMetadata → Checked → Checked
  unfolding add_mime_type add_error is_image
  check_metadata item none later = thrown
  check_metadata item (some metadata) later =
      if item.only_image && not (is_image metadata.mime_type)
      then add_error ("profile.icon.referenceId " +++ (item.reference_id +++ " is not an image!"))
          later
      else add_mime_type item.reference_id metadata.mime_type later

  unfoldable pub check_item : String → CheckItem → Option String → Checked → Checked
  unfolding check_metadata
  check_item place item none later =
      add_error (place +++ (".referenceId " +++ (item.reference_id +++ " does not exist!"))) later
  check_item place item (some text) later = check_metadata item (metadata_json.decode text) later

  -- An item with what its GET answers; none if that is rejected
  unfoldable pub check_answer : String → CheckItem → Option (Option String) → Checked → Checked
  unfolding check_item
  check_answer place item none later = thrown
  check_answer place item (some found) later = check_item place item found later

  module _ (redis : Redis) where
    -- The loop over the items; a rejection among the calls before it rejects all
    unfoldable pub check_all : redis.Db → String → List CheckItem → Checked
    unfolding check_answer get_text
    check_all db place [] = valid []
    check_all db place (item ∷ rest) =
        check_answer place item
          (get_text (redis.view db (get_asset_metadata_key item.reference_id)))
          (check_all db place rest)

    unfoldable pub validate_assets_and_fetch_metadata : redis.Db → AssetIncludedRequest → Checked
    unfolding check_all checking_list
    validate_assets_and_fetch_metadata db content =
        check_all db
          (elim content.profile_part [ none ↦ "content.assets" | some p ↦ "profile.icon" ])
          (checking_list content.profile_part content.content_part)
