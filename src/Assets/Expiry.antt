-- ===== src/Assets/Expiry.antt =====
-- How long an asset stays in Redis once it is pinned, and when it counts as pinned: AssetProcessorService
-- of apps/worker/src/asset_processor/asset.processor.service.ts.
use mathlib.Core.Bool.{false≢true}
use mathlib.Core.Option.{none-ne-some, some-injective}
use content_publishing_servi.Common.{
  ℕ, ◌+◌, ◌*◌, ◌≤◌, String, Option, none, some, true, ltb, Bool-cases, eq_iff, inl, inr, ◌≡◌, refl,
  sym, ap, arith,
}
use content_publishing_servi.Services.Redis.{Entry, missing, string, hash}
use content_publishing_servi.Api.{AssetJob}
use content_publishing_servi.Assets.{
  stored_content, check_cid, pin_content, process, rounded_seconds, seconds_to_expire, expire_lt,
  on_completed,
}

-- The key expires within the seconds, and no later than it did before.
abbrev pub IsShortened : ℕ → Option ℕ → Option ℕ → Type 0
IsShortened seconds before none = ⊥
IsShortened seconds none (some left) = left ≤ seconds
IsShortened seconds (some before) (some left) = (left ≤ seconds) × (left ≤ before)

expire_lt-IsShortened :
    (seconds bound : ℕ) (before : Option ℕ)
    → seconds ≤ bound
    → IsShortened bound before (expire_lt before seconds)
unfolding expire_lt
expire_lt-IsShortened seconds bound none h = h
expire_lt-IsShortened seconds bound (some left) h = elim (Bool-cases (ltb seconds left)) [
  | inl e ↦ rw e (h, ground (arith, e))
  | inr e ↦ rw e (ground (arith, e, h), omega arith)
]

-- Once an asset has been pinned, its content and its metadata expire no later than they did before,
-- and within any number of seconds that ends at least half a second after the configured time from
-- the job's creation.
pub on_completed-IsShortened :
    (expected_seconds now timestamp bound : ℕ) (content metadata : Option ℕ)
    → timestamp + expected_seconds * 1000 + 500 ≤ now + bound * 1000
    → timestamp ≤ now
    → let (content', metadata') = on_completed expected_seconds now timestamp (content, metadata) in
      IsShortened bound content content' × IsShortened bound metadata metadata'
unfolding on_completed seconds_to_expire rounded_seconds
on_completed-IsShortened expected_seconds now timestamp bound content metadata h past = (
  expire_lt-IsShortened _ bound content (omega arith),
  expire_lt-IsShortened _ bound metadata (omega arith),
)

check_cid-some :
    (job : AssetJob) (o : Option String) → check_cid job o ≡ true → o ≡ some job.ipfs_cid
unfolding check_cid
check_cid-some job none e = absurd (false≢true e)
check_cid-some job (some cid) e = ap some (sym ((eq_iff job.ipfs_cid cid).0 e))

pin_content-some :
    (ipfs_pin : String → String → Option String) (job : AssetJob) (o : Option String)
    → pin_content ipfs_pin job o ≡ true
    → (content : String) × (o ≡ some content) × (ipfs_pin job.mime_type content ≡ some job.ipfs_cid)
unfolding pin_content
pin_content-some ipfs_pin job none e = absurd (false≢true e)
pin_content-some ipfs_pin job (some content) e =
    (content, refl, check_cid-some job (ipfs_pin job.mime_type content) e)

stored_content-some :
    (entry : Entry) (content : String)
    → stored_content entry ≡ some content
    → entry ≡ string content
unfolding stored_content
stored_content-some missing content e = absurd (none-ne-some content e)
stored_content-some (hash fields) content e = absurd (none-ne-some content e)
stored_content-some (string v) content e = ap string (some-injective _ _ e)

-- An asset job succeeds only if a content is stored at its location, and if pinning that content under
-- the job's mime type has answered the job's cid.
pub process-pinned :
    (ipfs_pin : String → String → Option String) (view : String → Entry) (job : AssetJob)
    → process ipfs_pin view job ≡ true
    → (content : String) × (view job.content_location ≡ string content)
      × (ipfs_pin job.mime_type content ≡ some job.ipfs_cid)
unfolding process
process-pinned ipfs_pin view job e =
    let (content, stored, pinned) =
      pin_content-some ipfs_pin job (stored_content (view job.content_location)) e in
    (content, stored_content-some _ content stored, pinned)
