-- ===== src/Assets/Tests.antt =====
-- An asset whose job took five seconds.
use content_publishing_servi.Common.{String, Option, none, some, ◌≡◌, true, refl, arith}
use content_publishing_servi.Services.Redis.{string}
use content_publishing_servi.Api.{AssetJob}
use content_publishing_servi.Assets.{process, on_completed}
use content_publishing_servi.Assets.Expiry.{IsShortened, on_completed-IsShortened, process-pinned}

abbrev pin : String → String → Option String
pin mime_type content = some "bafy"

abbrev job : AssetJob
job = record {
  ipfs_cid = "bafy";
  mime_type = "image/png";
  content_location = "asset:data:bafy";
  metadata_location = "asset:metadata:bafy";
}

five_seconds : on_completed 300 15000 10000 (some 900, none) ≡ (some 295, some 295)
unfolding on_completed
five_seconds = refl

is_pinned : process pin (λ key. string "pixels") job ≡ true
unfolding process
is_pinned = refl

process-pinned_example :
    (content : String) × (string "pixels" ≡ string content)
    × (pin "image/png" content ≡ some "bafy")
process-pinned_example = process-pinned pin (λ key. string "pixels") job is_pinned

on_completed-IsShortened_example :
    let (content, metadata) = on_completed 300 15000 10000 (some 900, none) in
    IsShortened 296 (some 900) content × IsShortened 296 none metadata
on_completed-IsShortened_example =
    on_completed-IsShortened 300 15000 10000 296 (some 900) none (omega arith) (omega arith)
