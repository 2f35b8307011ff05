-- ===== src/Api/Assets/Uploads.antt =====
-- What an upload leaves in the store and in the asset queue: ApiService.addAssets of
-- apps/api/src/api.service.ts.
use content_publishing_servi.Common.{String, ◌≡◌}
use content_publishing_servi.Services.Redis.{Redis, Entry}
use content_publishing_servi.Services.Codec.{Codec}
use content_publishing_servi.Api.{
  AssetJob, AssetMetadata, File, get_asset_data_key, get_asset_metadata_key,
}

module _ (calculate_ipfs_cid : String → String) (metadata_json : Codec AssetMetadata)
    (redis : Redis) where
  abbrev pub metadata_at : redis.Db → String → Entry
  metadata_at db c = redis.view db (get_asset_metadata_key c)

  -- The job of a file has its reference and its mime type, and says where its data and its metadata
  -- are.
  abbrev pub IsJobOfFile : File → AssetJob → Type 0
  IsJobOfFile f job =
      (job.ipfs_cid ≡ calculate_ipfs_cid f.buffer)
      × (job.mime_type ≡ f.mime_type)
      × (job.content_location ≡ get_asset_data_key (calculate_ipfs_cid f.buffer))
      × (job.metadata_location ≡ get_asset_metadata_key (calculate_ipfs_cid f.buffer))
