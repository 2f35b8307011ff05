-- ===== src/Dtos.antt =====
-- The rules that the ValidationPipe of apps/api/src/main.ts checks on the content of a request:
-- the decorators of libs/common/src/dtos/activity.dto.ts and announcement.dto.ts.
pub mod Patterns
pub mod Made
pub mod Accepted
pub mod Samples
mod Tests
use content_publishing_servi.Common.{
  ℕ, String, Option, none, some, List, [], ◌∷◌, Bool, true, false, not, ◌&&◌, ◌||◌, ◌==ₛ◌, leb,
  if◌then◌else◌,
}
use content_publishing_servi.Uris.{is_dsnp_user_uri, is_dsnp_content_uri, validate_content_hash}
use content_publishing_servi.Requests.Content.{
  LocationDto, AssetReferenceDto, TagDto, AssetDto, NoteActivityDto, ProfileActivityDto,
  RequestContent, broadcast, reply, reaction, update, profile, tombstone,
}
use content_publishing_servi.Dtos.Patterns.{matches, duration_regex, dsnp_emoji_regex}

-- What the decorators of class-validator test: numbers by their JSON texts, dates and links
pub record Validators : Type 0 where
  pub is_number : String → Bool
  pub is_positive : String → Bool
  pub at_least : String → ℕ → Bool
  pub at_most : String → ℕ → Bool
  pub is_latitude : String → Bool
  pub is_longitude : String → Bool
  pub is_iso8601 : String → Bool
  pub is_url : String → Bool

module _ {A : Type 0} where
  -- @IsOptional() with the rules of the value
  unfoldable pub is_optional : (A → Bool) → Option A → Bool
  is_optional rule none = true
  is_optional rule (some a) = rule a

  -- The rules of a value, which refuse undefined
  unfoldable pub is_defined : (A → Bool) → Option A → Bool
  is_defined rule none = false
  is_defined rule (some a) = rule a

  -- @ValidateNested({ each: true })
  unfoldable pub every : (A → Bool) → List A → Bool
  every rule [] = true
  every rule (a ∷ rest) = rule a && every rule rest

-- @ArrayNotEmpty()
unfoldable pub array_not_empty : {A : Type 0} → List A → Bool
array_not_empty [] = false
array_not_empty (a ∷ rest) = true

-- @IsString() @MinLength(1)
unfoldable pub min_length_one : String → Bool
min_length_one s = not (s ==ₛ "")

-- @IsEnum(ModifiableAnnouncementTypeDto)
unfoldable pub is_modifiable : String → Bool
is_modifiable s = s ==ₛ "broadcast" || s ==ₛ "reply"

-- @ArrayUnique((o) => o.referenceId)
unfoldable pub has_reference : String → List AssetReferenceDto → Bool
has_reference id [] = false
has_reference id (r ∷ rest) = r.reference_id ==ₛ id || has_reference id rest

unfoldable pub array_unique : List AssetReferenceDto → Bool
unfolding has_reference
array_unique [] = true
array_unique (r ∷ rest) = not (has_reference r.reference_id rest) && array_unique rest

unfoldable pub is_unit : String → Bool
is_unit s = s ==ₛ "cm" || s ==ₛ "m" || s ==ₛ "km" || s ==ₛ "inches" || s ==ₛ "feet" || s ==ₛ "miles"

-- The two conditional rules of a tag
unfoldable pub tag_is_valid : TagDto → Bool
unfolding is_defined min_length_one
tag_is_valid tag =
    (tag.type_name ==ₛ "mention" || tag.type_name ==ₛ "hashtag")
    && (if tag.type_name ==ₛ "hashtag" then is_defined min_length_one tag.name else true)
    && (if tag.type_name ==ₛ "mention" then is_defined is_dsnp_user_uri tag.mentioned_id else true)

unfoldable pub is_attachment_type : String → Bool
is_attachment_type s = s ==ₛ "link" || s ==ₛ "image" || s ==ₛ "audio" || s ==ₛ "video"

module _ (validators : Validators) where
  open validators use {
    is_number, is_positive, at_least, at_most, is_latitude, is_longitude, is_iso8601, is_url,
  }

  unfoldable pub location_is_valid : LocationDto → Bool
  unfolding is_optional min_length_one is_unit
  location_is_valid location =
      min_length_one location.name
      && is_optional (λ n. is_number n && at_least n 0 && at_most n 100) location.accuracy
      && is_optional is_number location.altitude
      && is_optional (λ n. is_number n && is_latitude n) location.latitude
      && is_optional (λ n. is_number n && is_longitude n) location.longitude
      && is_optional (λ n. is_number n && at_least n 0) location.radius
      && is_optional is_unit location.units

  unfoldable pub reference_is_valid : AssetReferenceDto → Bool
  unfolding is_optional min_length_one matches
  reference_is_valid reference =
      min_length_one reference.reference_id
      && is_optional (λ n. is_number n && is_positive n) reference.height
      && is_optional (λ n. is_number n && is_positive n) reference.width
      && is_optional (matches duration_regex) reference.duration

  unfoldable pub references_are_valid : List AssetReferenceDto → Bool
  unfolding array_not_empty array_unique every reference_is_valid
  references_are_valid references =
      array_not_empty references && array_unique references && every reference_is_valid references

  unfoldable pub asset_is_valid : AssetDto → Bool
  unfolding is_attachment_type is_defined is_optional min_length_one references_are_valid
  asset_is_valid asset =
      is_attachment_type asset.type_name
      && (if asset.type_name ==ₛ "link"
          then true
          else is_defined references_are_valid asset.references)
      && is_optional min_length_one asset.name
      && (if asset.type_name ==ₛ "link"
          then is_defined (λ href. min_length_one href && is_url href) asset.href
          else true)

  unfoldable pub note_is_valid : NoteActivityDto → Bool
  unfolding is_optional is_defined every tag_is_valid location_is_valid min_length_one
      asset_is_valid
  note_is_valid note =
      is_optional (every tag_is_valid) note.tag
      && is_optional location_is_valid note.location
      && is_defined min_length_one note.content
      && is_defined is_iso8601 note.published
      && is_optional (every asset_is_valid) note.assets

  unfoldable pub profile_is_valid : ProfileActivityDto → Bool
  unfolding is_optional every tag_is_valid location_is_valid array_unique reference_is_valid
  profile_is_valid activity =
      is_optional (every tag_is_valid) activity.tag
      && is_optional location_is_valid activity.location
      && is_optional (λ icon. array_unique icon && every reference_is_valid icon) activity.icon
      && is_optional is_iso8601 activity.published

  unfoldable pub request_is_valid : RequestContent → Bool
  unfolding note_is_valid profile_is_valid is_defined min_length_one is_modifiable matches
  request_is_valid (broadcast note) = note_is_valid note
  request_is_valid (reply in_reply_to note) = is_dsnp_content_uri in_reply_to && note_is_valid note
  request_is_valid (reaction emoji apply in_reply_to) =
      min_length_one emoji
      && matches dsnp_emoji_regex emoji
      && leb apply 255
      && is_dsnp_content_uri in_reply_to
  request_is_valid (update target hash note) =
      is_defined (λ h. validate_content_hash h && min_length_one h) hash
      && is_modifiable target
      && note_is_valid note
  request_is_valid (profile activity) = profile_is_valid activity
  request_is_valid (tombstone target hash) =
      is_defined (λ h. validate_content_hash h && min_length_one h) hash && is_modifiable target
