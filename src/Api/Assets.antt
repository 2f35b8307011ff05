-- ===== src/Api/Assets.antt =====
-- addAssets and checkTransactionResult of apps/api/src/api.service.ts: an upload of assets.
pub mod Uploads
pub mod Described
use content_publishing_servi.Common.{
  ℕ, ◌*◌, String, Option, none, some, List, [], ◌∷◌, ◌++◌, Bool, true, false, if◌then◌else◌,
}
use content_publishing_servi.Services.Redis.{Redis}
use content_publishing_servi.Services.Codec.{Codec}
use content_publishing_servi.Api.{
  AssetMetadata, AssetJob, File, get_asset_data_key, get_asset_metadata_key,
}

-- STORAGE_EXPIRE_UPPER_LIMIT_SECONDS
abbrev pub storage_expire_upper_limit_seconds : ℕ
storage_expire_upper_limit_seconds = 45 * 24 * 60 * 60

-- What exec() gives: it is rejected, it is null, or it has a result for each command, which tells
-- whether that failed
pub data Exec : Type 0 where
  rejected : Exec
  aborted : Exec
  results : List Bool → Exec

-- The loop of checkTransactionResult; false if it throws
unfoldable pub no_error : List Bool → Bool
no_error [] = true
no_error (failed ∷ rest) = if failed then false else no_error rest

-- An awaited exec() and checkTransactionResult; false if one of them throws
unfoldable pub check_transaction_result : Exec → Bool
unfolding no_error
check_transaction_result rejected = false
check_transaction_result aborted = true
check_transaction_result (results errors) = no_error errors

-- What the calls of one upload answer
pub record UploadAnswers : Type 0 where
  pub now : ℕ
  pub data_exec : Exec
  pub adds : Bool
  pub metadata_exec : Exec

module _ (calculate_ipfs_cid : String → String) where
  unfoldable pub asset_jobs : List File → List AssetJob
  asset_jobs [] = []
  asset_jobs (f ∷ rest) =
      let reference = calculate_ipfs_cid f.buffer in
      record {
        ipfs_cid = reference;
        mime_type = f.mime_type;
        content_location = get_asset_data_key reference;
        metadata_location = get_asset_metadata_key reference;
      }
      ∷ asset_jobs rest

  unfoldable pub references : List File → List String
  references [] = []
  references (f ∷ rest) = calculate_ipfs_cid f.buffer ∷ references rest

  -- The commands of dataTransaction: their keys and values
  unfoldable pub data_transaction : List File → List (String × String)
  data_transaction [] = []
  data_transaction (f ∷ rest) =
      (get_asset_data_key (calculate_ipfs_cid f.buffer), f.buffer) ∷ data_transaction rest

  module _ (metadata_json : Codec AssetMetadata) where
    unfoldable pub metadata_transaction : ℕ → List File → List (String × String)
    metadata_transaction now [] = []
    metadata_transaction now (f ∷ rest) =
        (
          get_asset_metadata_key (calculate_ipfs_cid f.buffer),
          metadata_json.encode (record {
            ipfs_cid = calculate_ipfs_cid f.buffer;
            mime_type = f.mime_type;
            created_on = now;
          }),
        )
        ∷ metadata_transaction now rest

    module _ (redis : Redis) where
      -- The store and the asset queue
      pub record UploadState : Type 0 where
        pub db : redis.Db
        pub jobs : List AssetJob

      -- The SETEX commands that do not fail
      unfoldable pub set_all : redis.Db → List (String × String) → List Bool → redis.Db
      set_all db [] errors = db
      set_all db (command ∷ rest) [] = db
      set_all db ((k, v) ∷ rest) (true ∷ errors) = set_all db rest errors
      set_all db ((k, v) ∷ rest) (false ∷ errors) =
          set_all (redis.setex db k storage_expire_upper_limit_seconds v) rest errors

      -- A transaction that is rejected or aborted writes nothing.
      unfoldable pub exec : redis.Db → List (String × String) → Exec → redis.Db
      unfolding set_all
      exec db commands rejected = db
      exec db commands aborted = db
      exec db commands (results errors) = set_all db commands errors

      -- The metadata's transaction, once the jobs are added
      unfoldable pub add_metadata :
          UploadAnswers → UploadState → List File → UploadState × Option (List String)
      unfolding exec check_transaction_result metadata_transaction references
      add_metadata answers st files =
          let st' = record st {
            db = exec st.db (metadata_transaction answers.now files) answers.metadata_exec;
          } in
          if check_transaction_result answers.metadata_exec
          then (st', some (references files))
          else (st', none)

      -- addAssets: the references, or none if it throws
      unfoldable pub add_assets :
          UploadAnswers → UploadState → List File → UploadState × Option (List String)
      unfolding exec check_transaction_result data_transaction asset_jobs add_metadata
      add_assets answers st files =
          let st' = record st { db = exec st.db (data_transaction files) answers.data_exec } in
          if check_transaction_result answers.data_exec
          then if answers.adds
            then add_metadata answers (record st' { jobs = st.jobs ++ asset_jobs files }) files
            else (st', none)
          else (st', none)
