-- ===== src/Uris/Tests.antt =====
-- URIs that are accepted and refused.
use Prim.Native.String.{◌++◌}
use content_publishing_servi.Common.{String, true, false, ◌≡◌, refl}
use content_publishing_servi.Uris.{all_digits, is_dsnp_user_uri, is_dsnp_content_uri}
use content_publishing_servi.Uris.Accepted.{IsUserId, is_dsnp_user_uri-accepted}

accepts : is_dsnp_user_uri "dsnp://123" ≡ true
unfolding is_dsnp_user_uri
accepts = refl

accepts_nobody : is_dsnp_user_uri "dsnp://" ≡ true
unfolding is_dsnp_user_uri
accepts_nobody = refl

refuses_protocol : is_dsnp_user_uri "http://123" ≡ false
unfolding is_dsnp_user_uri
refuses_protocol = refl

refuses_zero : is_dsnp_user_uri "dsnp://0123" ≡ false
unfolding is_dsnp_user_uri
refuses_zero = refl

refuses_65_bits : is_dsnp_user_uri "dsnp://18446744073709551616" ≡ false
unfolding is_dsnp_user_uri
refuses_65_bits = refl

accepts_content : is_dsnp_content_uri "dsnp://123/0xabcd" ≡ true
unfolding is_dsnp_content_uri
accepts_content = refl

is_dsnp_user_uri-accepted_example :
    (id : String) × ("dsnp://123" ≡ "dsnp://" ++ id) × (all_digits id ≡ true) × IsUserId id
is_dsnp_user_uri-accepted_example = is_dsnp_user_uri-accepted "dsnp://123" accepts
