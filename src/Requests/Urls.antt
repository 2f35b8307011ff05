-- ===== src/Requests/Urls.antt =====
-- The gateway's URLs: getIpfsCidPlaceholder of libs/common/src/config/config.service.ts.
use Prim.Native.String.{slice, len}
use text.Mathlib.Text.{find?}
use content_publishing_servi.Common.{
  ℕ, ◌+◌, String, ◌+++◌, Option, none, some, Bool, ◌==ₛ◌, not, ◌||◌, is_some, if◌then◌else◌, ◌≡◌,
  refl,
}

-- s.includes(t)
unfoldable pub includes : String → String → Bool
includes s t = is_some (find? s t)

-- s.replace(t, r), at the place where t was found first
unfoldable pub replace_at : String → String → String → Option ℕ → String
replace_at s t r none = s
replace_at s t r (some i) = slice s 0 i +++ (r +++ slice s (i + len t) (len s))

unfoldable pub get_ipfs_cid_placeholder : String → String → String
unfolding includes replace_at
get_ipfs_cid_placeholder gateway_url cid =
    if gateway_url ==ₛ "" || not (includes gateway_url "[CID]")
    then "https://ipfs.io/ipfs/" +++ cid
    else replace_at gateway_url "[CID]" cid (find? gateway_url "[CID]")

placeholder_is_replaced :
    get_ipfs_cid_placeholder "http://host/ipfs/[CID]?x" "bafy" ≡ "http://host/ipfs/bafy?x"
unfolding get_ipfs_cid_placeholder
placeholder_is_replaced = refl
