-- ===== src/IpfsClient.antt =====
-- IpfsService of libs/common/src/utils/ipfs.client.ts and the hashes of libs/common/src/utils/ipfs.ts:
-- pinning a file, asking for it, and reading it.
pub mod Node
pub mod Pinned
pub mod Failures
mod Tests
use text.Mathlib.Text.{find?}
use content_publishing_servi.Common.{
  ℕ, String, ◌+++◌, Option, none, some, Bool, true, false, not, ◌&&◌, ◌==ₛ◌, if◌then◌else◌,
}
use content_publishing_servi.Requests.Urls.{includes, replace_at}
use Node.{CidLibrary, Form, Post, AddData, Server}

-- blake2b256, the digests of multiformats and their encoding in base 58
pub record Hasher : Type 0 where
  pub code : ℕ
  -- the bytes of hasher.digest(buffer)
  pub digest : String → String
  -- the bytes of create(code, bytes)
  pub create : ℕ → String → String
  pub base58btc : String → String

-- The libraries that the service calls besides: the extension of a mime type (none for false), the
-- text of bytes in base 64
pub record Tools : Type 1 where
  pub cids : CidLibrary
  pub hasher : Hasher
  pub get_extension : String → Option String
  pub base64 : String → String

-- The settings that the service reads
pub record IpfsConfig : Type 0 where
  pub ipfs_endpoint : String
  pub ipfs_gateway_url : String
  pub ipfs_basic_auth_user : String
  pub ipfs_basic_auth_secret : String

-- interface FilePin
pub record FilePin : Type 0 where
  pub cid : String
  pub cid_bytes : String
  pub file_name : String
  pub size : String
  pub hash : String

-- What a call throws
pub data PinError : Type 0 where
  unknown_mimetype unable_to_pin : String → PinError
  request_failed bad_cid : PinError

pub data PinResult : Type 0 where
  pinned : FilePin → PinResult
  threw : PinError → PinResult

-- Whether a text that may be missing counts as true
abbrev pub is_truthy : Option String → Bool
is_truthy none = false
is_truthy (some s) = not (s ==ₛ "")

-- ipfsHashBuffer
unfoldable pub ipfs_hash_buffer : Hasher → String → String
ipfs_hash_buffer hasher file_buffer =
    let hash = hasher.create hasher.code (hasher.digest file_buffer) in hasher.base58btc hash

-- calculateDsnpHash of ipfs.ts
unfoldable pub calculate_dsnp_hash : Hasher → String → String
calculate_dsnp_hash hasher file_buffer =
    let digest = hasher.create hasher.code (hasher.digest file_buffer) in hasher.base58btc digest

-- calculateIpfsCID of ipfs.ts, where the library ipfs-only-hash gives the text of version 0
unfoldable pub calculate_ipfs_cid : (cids : CidLibrary) → (String → String) → String → Option String
calculate_ipfs_cid cids only_hash buffer = elim (cids.parse (only_hash buffer)) [
  | none ↦ none
  | some v0 ↦ some (cids.to_string (cids.to_v1 v0))
]

unfoldable pub ipfs_auth : (String → String) → IpfsConfig → String
ipfs_auth base64 config =
    if not (config.ipfs_basic_auth_user ==ₛ "") && not (config.ipfs_basic_auth_secret ==ₛ "")
    then "Basic "
      +++ base64 (config.ipfs_basic_auth_user +++ (":" +++ config.ipfs_basic_auth_secret))
    else ""

unfoldable pub ipfs_url : IpfsConfig → String → String
unfolding includes replace_at
ipfs_url config cid =
    if includes config.ipfs_gateway_url "[CID]"
    then replace_at config.ipfs_gateway_url "[CID]" cid (find? config.ipfs_gateway_url "[CID]")
    else config.ipfs_gateway_url +++ ("/ipfs/" +++ cid)

module _ (tools : Tools) (config : IpfsConfig) where
  open tools use {cids, hasher, get_extension, base64}

  unfoldable pub add_post : String → String → String → Post
  unfolding ipfs_auth
  add_post filename content_type file_buffer = record {
    url = config.ipfs_endpoint +++ "/api/v0/add";
    body =
        some (record { file_name = filename; content_type = content_type; buffer = file_buffer });
    authorization = ipfs_auth base64 config;
  }

  unfoldable pub cat_post : String → Post
  unfolding ipfs_auth
  cat_post cid = record {
    url = config.ipfs_endpoint +++ ("/api/v0/cat?arg=" +++ cid);
    body = none;
    authorization = ipfs_auth base64 config;
  }

  unfoldable pub ls_post : String → Post
  unfolding ipfs_auth
  ls_post v0_cid = record {
    url = config.ipfs_endpoint +++ ("/api/v0/pin/ls?type=all&quiet=true&arg=" +++ v0_cid);
    body = none;
    authorization = ipfs_auth base64 config;
  }

  -- The file that is answered once CID.parse(data.Hash) has its answer
  unfoldable pub pinned_file : AddData → String → Option cids.Cid → PinResult
  pinned_file answer size none = threw bad_cid
  pinned_file answer size (some parsed) =
      let cid = cids.to_v1 parsed in
      pinned (record {
        cid = cids.to_string cid;
        cid_bytes = cids.bytes cid;
        file_name = answer.name_field;
        size = size;
        hash = "";
      })

  -- !data.Hash || !data.Size
  unfoldable pub check_add : String → AddData → Option String → Option String → PinResult
  unfolding pinned_file
  check_add filename answer none size = threw (unable_to_pin filename)
  check_add filename answer (some hash) none = threw (unable_to_pin filename)
  check_add filename answer (some hash) (some size) =
      if is_truthy (some hash) && is_truthy (some size)
      then pinned_file answer size (cids.parse hash)
      else threw (unable_to_pin filename)

  -- ipfsPinBuffer at the answer to add: none where the call is rejected, and no data where `data` is
  -- null or undefined
  unfoldable pub read_add : String → Option (Option AddData) → PinResult
  unfolding check_add
  read_add filename none = threw request_failed
  read_add filename (some none) = threw (unable_to_pin filename)
  read_add filename (some (some answer)) =
      check_add filename answer answer.hash_field answer.size_field

  -- { ...ipfs, hash: calculateDsnpHash ? fileName : '' }
  unfoldable pub with_hash : Bool → String → PinResult → PinResult
  with_hash calculates file_name (threw e) = threw e
  with_hash calculates file_name (pinned f) =
      pinned (record f { hash = if calculates then file_name else "" })

  -- The answer to pin/ls: every rejection is caught, and what is stringified is the data
  unfoldable pub lists : String → Option String → Bool
  unfolding includes
  lists v0_cid none = false
  lists v0_cid (some json) = includes json v0_cid

  module _ (server : Server cids config.ipfs_endpoint) where
    open server use {Store, add, cat, ls}

    -- ipfsPinBuffer
    unfoldable pub ipfs_pin_buffer : Store → String → String → String → PinResult × Store
    unfolding add_post read_add
    ipfs_pin_buffer store filename content_type file_buffer =
        let (answer, store') = add store (add_post filename content_type file_buffer) in
        (read_add filename answer, store')

    -- Once the extension is there: it is false where the mime type is not known
    unfoldable pub pin_extension :
        Store → String → String → Bool → String → Option String → PinResult × Store
    unfolding ipfs_pin_buffer with_hash
    pin_extension store mime_type file calculates file_name none =
        (threw (unknown_mimetype mime_type), store)
    pin_extension store mime_type file calculates file_name (some extension) =
        let (result, store') =
          ipfs_pin_buffer store (file_name +++ ("." +++ extension)) mime_type file in
        (with_hash calculates file_name result, store')

    -- ipfsPin, where randomUUID would give `uuid`
    unfoldable pub ipfs_pin : Store → String → String → Bool → String → PinResult × Store
    unfolding pin_extension ipfs_hash_buffer
    ipfs_pin store mime_type file calculates uuid =
        pin_extension store mime_type file calculates
          (if calculates then ipfs_hash_buffer hasher file else uuid) (get_extension mime_type)

    -- isPinned once the identifier is read and put in version 0; none where one of these throws
    unfoldable pub is_pinned_v0 : Store → Option cids.Cid → Option Bool
    unfolding ls_post lists
    is_pinned_v0 store none = none
    is_pinned_v0 store (some v0) =
        let v0_cid = cids.to_string v0 in some (lists v0_cid (ls store (ls_post v0_cid)))

    unfoldable pub is_pinned_cid : Store → Option cids.Cid → Option Bool
    unfolding is_pinned_v0
    is_pinned_cid store none = none
    is_pinned_cid store (some parsed_cid) = is_pinned_v0 store (cids.to_v0 parsed_cid)

    unfoldable pub is_pinned : Store → String → Option Bool
    unfolding is_pinned_cid
    is_pinned store cid = is_pinned_cid store (cids.parse cid)

    -- getPinned at what isPinned answers: the empty buffer where that is false
    unfoldable pub get_checked : Store → String → Option Bool → Option String
    unfolding cat_post
    get_checked store cid none = none
    get_checked store cid (some false) = some ""
    get_checked store cid (some true) = cat store (cat_post cid)

    -- getPinned(cid, checkExistence); none where it throws
    unfoldable pub get_pinned : Store → String → Bool → Option String
    unfolding get_checked is_pinned
    get_pinned store cid check_existence =
        get_checked store cid (if check_existence then is_pinned store cid else some true)
