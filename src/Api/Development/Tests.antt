-- ===== src/Api/Development/Tests.antt =====
-- Requests for made-up announcements.
use content_publishing_servi.Common.{ℕ, String, ◌+++◌, none, ◌≡◌, refl}
use content_publishing_servi.Dsnp.{Announcement}
use content_publishing_servi.IpfsClient.{Hasher}
use content_publishing_servi.Api.Development.{Draws, populate}

abbrev hasher : Hasher
hasher = record { code = 45600; digest = λ s. s; create = λ code s. s; base58btc = λ s. "z" +++ s }

abbrev text_of : Announcement → String
text_of a = a.from_id

abbrev draws : ℕ → Draws
draws i = record { from_id = i; hash = 7; at_url = 8; at_target = 9; at_user = 10 }

refuses_unknown : populate hasher text_of draws "follow" 0 2 ≡ none
unfolding populate
refuses_unknown = refl
