-- ===== src/Api/Instances.antt =====
-- A codec for the metadata of an asset, which meets what the model assumes of JSON texts.
use content_publishing_servi.Common.{ℕ, String, refl}
use content_publishing_servi.Services.Codec.{Codec}
use content_publishing_servi.Services.Formats.{number, plain_text, both, along, codec_of}
use content_publishing_servi.Api.{AssetMetadata}

abbrev pub metadata_to : AssetMetadata → String × (String × ℕ)
metadata_to m = (m.ipfs_cid, (m.mime_type, m.created_on))

abbrev pub metadata_from : String × (String × ℕ) → AssetMetadata
metadata_from (cid, (mime, created)) = record {
  ipfs_cid = cid;
  mime_type = mime;
  created_on = created;
}

abbrev pub asset_codec : Codec AssetMetadata
asset_codec =
    codec_of
      (along (both plain_text (both plain_text number)) metadata_to metadata_from (λ m. refl))
