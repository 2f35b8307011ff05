-- ===== src/Queues/Tests.antt =====
-- The schema ids of two environments.
use content_publishing_servi.Common.{◌≡◌, refl}
use content_publishing_servi.Queues.{profile, update, mainnet, dev, get_schema_id}

-- The two environments number profiles and updates the other way round.
swapped_ids : get_schema_id mainnet profile ≡ get_schema_id dev update
unfolding get_schema_id
swapped_ids = refl
