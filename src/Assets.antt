-- ===== src/Assets.antt =====
-- AssetProcessorService of apps/worker/src/asset_processor/asset.processor.service.ts: an uploaded
-- asset is pinned, and then its copy in Redis is let go.
pub mod Expiry
mod Tests
use content_publishing_servi.Common.{
  ℕ, ◌+◌, ◌-◌, ◌/◌, String, Option, none, some, List, [], ◌∷◌, Bool, true, false, ltb, ◌==ₛ◌,
  if◌then◌else◌,
}
use content_publishing_servi.Services.Redis.{Entry, missing, string, hash}
use content_publishing_servi.Api.{AssetJob}

-- The content that is stored, if the call is answered and there is one
unfoldable pub stored_content : Entry → Option String
stored_content missing = none
stored_content (string content) = some content
stored_content (hash fields) = none

-- The comparison with the cid of what has been pinned; false if it throws
unfoldable pub check_cid : AssetJob → Option String → Bool
check_cid job none = false
check_cid job (some cid) = job.ipfs_cid ==ₛ cid

unfoldable pub pin_content : (String → String → Option String) → AssetJob → Option String → Bool
unfolding check_cid
pin_content ipfs_pin job none = false
pin_content ipfs_pin job (some content) = check_cid job (ipfs_pin job.mime_type content)

-- process, where pinning a content of a mime type answers a cid or is rejected; false if it throws
unfoldable pub process : (String → String → Option String) → (String → Entry) → AssetJob → Bool
unfolding stored_content pin_content
process ipfs_pin view job = pin_content ipfs_pin job (stored_content (view job.content_location))

-- Math.round(ms / 1000)
unfoldable pub rounded_seconds : ℕ → ℕ
rounded_seconds ms = (ms + 500) / 1000

-- Math.max(0, …)
unfoldable pub seconds_to_expire : ℕ → ℕ → ℕ → ℕ
unfolding rounded_seconds
seconds_to_expire expected_seconds now timestamp =
    expected_seconds - rounded_seconds (now - timestamp)

-- EXPIRE key seconds LT: the seconds that a key has left (none if it does not expire, which counts
-- as more than any number)
unfoldable pub expire_lt : Option ℕ → ℕ → Option ℕ
expire_lt none seconds = some seconds
expire_lt (some left) seconds = if ltb seconds left then some seconds else some left

-- onCompleted: the seconds left of the content and of the metadata
unfoldable pub on_completed : ℕ → ℕ → ℕ → Option ℕ × Option ℕ → Option ℕ × Option ℕ
unfolding seconds_to_expire expire_lt
on_completed expected_seconds now timestamp (content, metadata) =
    let seconds = seconds_to_expire expected_seconds now timestamp in
    (expire_lt content seconds, expire_lt metadata seconds)
