-- ===== src/Api/Assets/Described.antt =====
-- The metadata that an upload leaves at the references of its files: ApiService.addAssets of
-- apps/api/src/api.service.ts.
use mathlib.Core.Bool.{false≢true}
use mathlib.Core.Path.{subst}
use mathlib.Core.List.{append_assoc}
use text.Mathlib.TextPositions.{eq_refl}
use text.Mathlib.TextLemmas.{append_cancel_left}
use content_publishing_servi.Common.{
  ℕ, String, none, some, List, [], ◌∷◌, ◌++◌, Bool, true, false, ◌==ₛ◌, Bool-cases, All, ◌≡◌, inl,
  inr, refl, sym, ◌∙◌, ==-false, eq_iff, Option, if◌then◌else◌,
}
use content_publishing_servi.Services.Redis.{Redis, string}
use content_publishing_servi.Services.Codec.{Codec}
use content_publishing_servi.Api.{AssetMetadata, File, get_asset_metadata_key}
use content_publishing_servi.Api.Assets.{
  results, UploadAnswers, UploadState, no_error, check_transaction_result, references,
  metadata_transaction, set_all, exec, add_metadata, add_assets, storage_expire_upper_limit_seconds,
}
use content_publishing_servi.Api.Assets.Uploads.{metadata_at}

metadata_key-==-false :
    (c d : String)
    → (c ==ₛ d) ≡ false
    → (get_asset_metadata_key c ==ₛ get_asset_metadata_key d) ≡ false
unfolding get_asset_metadata_key
metadata_key-==-false c d e =
    ==-false _ _
      (λ h. false≢true (sym e ∙ (eq_iff c d).1 (append_cancel_left "asset:metadata:" c d h)))

-- The commands that do not fail, one flag for each
abbrev pub all_succeed : List File → List Bool
all_succeed [] = []
all_succeed (f ∷ rest) = false ∷ all_succeed rest

no_error-all_succeed : (files : List File) → no_error (all_succeed files) ≡ true
unfolding no_error
no_error-all_succeed [] = refl
no_error-all_succeed (f ∷ rest) = no_error-all_succeed rest

module _ (calculate_ipfs_cid : String → String) (metadata_json : Codec AssetMetadata)
    (redis : Redis) where
  -- The mime type of the last of the files that have the reference, or the one seen before
  abbrev pub last_type : List File → String → Option String → Option String
  last_type [] c seen = seen
  last_type (f ∷ rest) c seen =
      last_type rest c (if calculate_ipfs_cid f.buffer ==ₛ c then some f.mime_type else seen)

  -- The reference, that mime type and the time are the metadata at the reference, if there is one.
  abbrev HasMetadata : redis.Db → ℕ → String → Option String → Type 0
  HasMetadata db now c none = Unit
  HasMetadata db now c (some mime_type) =
      metadata_at calculate_ipfs_cid metadata_json redis db c
      ≡ string
          (metadata_json.encode (record { ipfs_cid = c; mime_type = mime_type; created_on = now }))

  -- The metadata at the file's reference are those of the upload at the time `now`: the reference,
  -- the time, and the mime type of the last of the files that have this reference.
  abbrev pub IsDescribed : redis.Db → ℕ → List File → File → Type 0
  IsDescribed db now files f =
      let c = calculate_ipfs_cid f.buffer in
      (mime_type : String) × (last_type files c none ≡ some mime_type)
      × (metadata_at calculate_ipfs_cid metadata_json redis db c
          ≡ string (
              metadata_json.encode
                (record { ipfs_cid = c; mime_type = mime_type; created_on = now })))

  written : redis.Db → ℕ → File → redis.Db
  written db now f =
      redis.setex db (get_asset_metadata_key (calculate_ipfs_cid f.buffer))
        storage_expire_upper_limit_seconds
        (metadata_json.encode (record {
          ipfs_cid = calculate_ipfs_cid f.buffer;
          mime_type = f.mime_type;
          created_on = now;
        }))

  HasMetadata-other :
      (db : redis.Db) (now : ℕ) (f : File) (c : String) (seen : Option String)
      → (calculate_ipfs_cid f.buffer ==ₛ c) ≡ false
      → HasMetadata db now c seen
      → HasMetadata (written db now f) now c seen
  unfolding written
  HasMetadata-other db now f c none e h = tt
  HasMetadata-other db now f c (some mime_type) e h =
      rw (redis.view-setex, metadata_key-==-false (calculate_ipfs_cid f.buffer) c e) h

  HasMetadata-same :
      (db : redis.Db) (now : ℕ) (f : File) (c : String)
      → calculate_ipfs_cid f.buffer ≡ c
      → HasMetadata (written db now f) now c (some f.mime_type)
  unfolding written
  HasMetadata-same db now f c e =
      subst (λ d. HasMetadata (written db now f) now d (some f.mime_type)) e
        (rw (redis.view-setex, eq_refl (get_asset_metadata_key (calculate_ipfs_cid f.buffer))) refl)

  written-HasMetadata :
      (db : redis.Db) (now : ℕ) (f : File) (c : String) (seen : Option String)
      → HasMetadata db now c seen
      → HasMetadata
          (written db now f)
          now
          c
          (if calculate_ipfs_cid f.buffer ==ₛ c then some f.mime_type else seen)
  written-HasMetadata db now f c seen h = elim (Bool-cases (calculate_ipfs_cid f.buffer ==ₛ c)) [
    | inl e ↦ rw e (HasMetadata-same db now f c ((eq_iff (calculate_ipfs_cid f.buffer) c).0 e))
    | inr e ↦ rw e (HasMetadata-other db now f c seen e h)
  ]

  -- The commands for the metadata, where none of them fails, leave at each key the last one written.
  set_all-HasMetadata :
      (db : redis.Db) (now : ℕ) (files : List File) (c : String) (seen : Option String)
      → HasMetadata db now c seen
      → HasMetadata
          (set_all calculate_ipfs_cid metadata_json redis db
            (metadata_transaction calculate_ipfs_cid metadata_json now files)
            (all_succeed files))
          now
          c
          (last_type files c seen)
  unfolding set_all metadata_transaction written
  set_all-HasMetadata db now [] c seen h = h
  set_all-HasMetadata db now (f ∷ rest) c seen h =
      set_all-HasMetadata (written db now f) now rest c _ (written-HasMetadata db now f c seen h)

  -- A mime type that was seen, or that a file of the reference has, leaves one at the end.
  last_type-some :
      (files : List File) (c : String) (seen : String)
      → (mime_type : String) × (last_type files c (some seen) ≡ some mime_type)
  last_type-some [] c seen = (seen, refl)
  last_type-some (f ∷ rest) c seen = elim (Bool-cases (calculate_ipfs_cid f.buffer ==ₛ c)) [
    | inl e ↦ rw e (last_type-some rest c f.mime_type)
    | inr e ↦ rw e (last_type-some rest c seen)
  ]

  last_type-of_file :
      (before rest : List File) (f : File) (seen : Option String)
      → (mime_type : String) × (last_type (before ++ f ∷ rest) (calculate_ipfs_cid f.buffer) seen
          ≡ some mime_type)
  last_type-of_file [] rest f seen =
      rw (eq_refl (calculate_ipfs_cid f.buffer), last_type)
        (last_type-some rest (calculate_ipfs_cid f.buffer) f.mime_type)
  last_type-of_file (g ∷ before) rest f seen = last_type-of_file before rest f _

  HasMetadata-IsDescribed :
      (db : redis.Db) (now : ℕ) (files : List File) (f : File)
      → ((c : String) → HasMetadata db now c (last_type files c none))
      → (mime_type : String) × (last_type files (calculate_ipfs_cid f.buffer) none ≡ some mime_type)
      → IsDescribed db now files f
  HasMetadata-IsDescribed db now files f h (mime_type, e) = (
    mime_type,
    e,
    subst (HasMetadata db now (calculate_ipfs_cid f.buffer)) e (h (calculate_ipfs_cid f.buffer)),
  )

  all-IsDescribed :
      (db : redis.Db) (now : ℕ) (before files : List File)
      → ((c : String) → HasMetadata db now c (last_type (before ++ files) c none))
      → All (IsDescribed db now (before ++ files)) files
  all-IsDescribed db now before [] h = tt
  all-IsDescribed db now before (f ∷ rest) h = (
    HasMetadata-IsDescribed db now (before ++ f ∷ rest) f h (last_type-of_file before rest f none),
    subst (λ fs. All (IsDescribed db now fs) rest) (append_assoc before (f ∷ []) rest)
        (all-IsDescribed db now (before ++ f ∷ []) rest (
          subst (λ fs. (c : String) → HasMetadata db now c (last_type fs c none))
            (sym (append_assoc before (f ∷ []) rest)) h)),
  )

  -- Where the data are stored without an error, the queue takes the jobs and no command for the
  -- metadata fails, an upload answers the references of its files, and at the reference of each file
  -- are its metadata: the reference, the time of the upload, and the file's mime type, or that of the
  -- last one where several files have one reference.
  pub add_assets-IsDescribed :
      (answers : UploadAnswers) (st : UploadState calculate_ipfs_cid metadata_json redis)
      (files : List File)
      → check_transaction_result answers.data_exec ≡ true
      → answers.adds ≡ true
      → answers.metadata_exec ≡ results (all_succeed files)
      → let (st', outcome) = add_assets calculate_ipfs_cid metadata_json redis answers st files in
        (outcome ≡ some (references calculate_ipfs_cid files))
        × All (IsDescribed st'.db answers.now files) files
  unfolding add_assets add_metadata exec check_transaction_result
  add_assets-IsDescribed answers st files d a m =
      simp (d, a, m, no_error-all_succeed files)
        (
          refl,
          all-IsDescribed _ answers.now [] files
              (λ c. set_all-HasMetadata _ answers.now files c none tt),
        )
