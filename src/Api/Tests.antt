-- ===== src/Api/Tests.antt =====
-- The validation of a profile with one icon, which is an image.
use content_publishing_servi.Common.{All, true, false, String, none, some, [], ◌∷◌, ◌≡◌, refl}
use content_publishing_servi.Services.Redis.{string}
use content_publishing_servi.Services.Memory.{memory, Store, put, empty_store}
use content_publishing_servi.Services.Formats.{number, plain_text, both, along, codec_of}
use content_publishing_servi.Requests.Content.{
  AssetReferenceDto, ProfileActivityDto, RequestJob, profile,
}
use content_publishing_servi.Api.Instances.{asset_codec}
use content_publishing_servi.Api.{
  File, AssetIncludedRequest, valid, bad_request, validate_assets_and_fetch_metadata,
  get_asset_metadata_key,
}
use content_publishing_servi.Api.Assets.{
  UploadAnswers, UploadState, results, add_assets, references, check_transaction_result,
}
use content_publishing_servi.Api.Assets.Described.{IsDescribed, add_assets-IsDescribed}
use content_publishing_servi.Api.Naming.{IsChecked, validate_assets_and_fetch_metadata-IsChecked}

abbrev stored : Store
stored = put empty_store (get_asset_metadata_key "c") (
    string
      (asset_codec.encode (record { ipfs_cid = "c"; mime_type = "Image/png"; created_on = 5 })))

abbrev icon : AssetReferenceDto
icon = record { reference_id = "c"; height = none; width = none; duration = none }

abbrev activity : ProfileActivityDto
activity = record {
  name = none;
  tag = none;
  location = none;
  icon = some (icon ∷ []);
  summary = none;
  published = none;
}

abbrev content : AssetIncludedRequest
content = record { profile_part = some activity; content_part = none }

passes :
    validate_assets_and_fetch_metadata asset_codec memory stored content
    ≡ valid (("c", "Image/png") ∷ [])
unfolding validate_assets_and_fetch_metadata get_asset_metadata_key codec_of along both number
    plain_text
passes = refl

is_refused :
    validate_assets_and_fetch_metadata asset_codec memory empty_store content
    ≡ bad_request ("profile.icon.referenceId c does not exist!" ∷ [])
unfolding validate_assets_and_fetch_metadata get_asset_metadata_key
is_refused = refl

validate_assets_and_fetch_metadata-IsChecked_example :
    IsChecked asset_codec memory stored content (("c", "Image/png") ∷ [])
validate_assets_and_fetch_metadata-IsChecked_example =
    validate_assets_and_fetch_metadata-IsChecked asset_codec memory stored content
      (("c", "Image/png") ∷ []) passes

abbrev file : File
file = record { buffer = "pixels"; mime_type = "image/png" }

abbrev other : File
other = record { buffer = "pixels"; mime_type = "image/webp" }

-- Two files with one content have one reference.
abbrev cid_of : String → String
cid_of buffer = "cid"

abbrev start : UploadState cid_of asset_codec memory
start = record { db = empty_store; jobs = [] }

abbrev answers : UploadAnswers
answers = record {
  now = 7;
  data_exec = results (false ∷ false ∷ []);
  adds = true;
  metadata_exec = results (false ∷ false ∷ []);
}

data_is_stored : check_transaction_result answers.data_exec ≡ true
unfolding check_transaction_result
data_is_stored = refl

add_assets-IsDescribed_example :
    let (st', outcome) = add_assets cid_of asset_codec memory answers start (file ∷ other ∷ []) in
    (outcome ≡ some (references cid_of (file ∷ other ∷ [])))
    × All (IsDescribed cid_of asset_codec memory st'.db 7 (file ∷ other ∷ [])) (file ∷ other ∷ [])
add_assets-IsDescribed_example =
    add_assets-IsDescribed cid_of asset_codec memory answers start (file ∷ other ∷ [])
      data_is_stored refl refl

abbrev queued_job : RequestJob
queued_job = record {
  id = "id";
  dsnp_user_id = "1";
  asset_to_mime_type = some (("c", "Image/png") ∷ []);
  content = profile activity;
  dependency_attempt = 0;
}
