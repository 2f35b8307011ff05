-- ===== src/Queues.antt =====
-- The announcement types, their queues and their schemas: libs/common/src/dtos/common.dto.ts,
-- libs/common/src/utils/queues.ts and libs/common/src/utils/dsnp.schema.ts.
pub mod Schemas
mod Tests
use content_publishing_servi.Common.{
  String, Option, none, some, ℕ, List, [], ◌∷◌, ◌==ₛ◌, if◌then◌else◌, Bool, true, false,
}

-- enum AnnouncementTypeDto
pub data AnnouncementTypeDto : Type 0 where
  broadcast reply reaction update tombstone profile : AnnouncementTypeDto

-- enum ChainEnvironment
pub data ChainEnvironment : Type 0 where
  mainnet rococo testnet_paseo dev : ChainEnvironment

abbrev pub broadcast_queue_name : String
broadcast_queue_name = "broadcastQueue"

abbrev pub reply_queue_name : String
reply_queue_name = "replyQueue"

abbrev pub reaction_queue_name : String
reaction_queue_name = "reactionQueue"

abbrev pub update_queue_name : String
update_queue_name = "updateQueue"

abbrev pub tombstone_queue_name : String
tombstone_queue_name = "tombstoneQueue"

abbrev pub profile_queue_name : String
profile_queue_name = "profileQueue"

-- ANNOUNCEMENT_TO_QUEUE_NAME_MAP.get(type)
unfoldable pub announcement_to_queue_name : AnnouncementTypeDto → String
announcement_to_queue_name broadcast = broadcast_queue_name
announcement_to_queue_name reply = reply_queue_name
announcement_to_queue_name reaction = reaction_queue_name
announcement_to_queue_name update = update_queue_name
announcement_to_queue_name tombstone = tombstone_queue_name
announcement_to_queue_name profile = profile_queue_name

-- The entries of a Map whose keys are texts, in the order of insertion.
abbrev pub get {ℓ} : {V : Type ℓ} → List (String × V) → String → Option V
get [] k = none
get ((j, v) ∷ rest) k = if j ==ₛ k then some v else get rest k

abbrev pub queue_name_to_announcement_map : List (String × AnnouncementTypeDto)
queue_name_to_announcement_map =
    (broadcast_queue_name, broadcast)
    ∷ (reply_queue_name, reply)
    ∷ (reaction_queue_name, reaction)
    ∷ (update_queue_name, update)
    ∷ (tombstone_queue_name, tombstone)
    ∷ (profile_queue_name, profile)
    ∷ []

-- QUEUE_NAME_TO_ANNOUNCEMENT_MAP.get(queueName), none for undefined
unfoldable pub queue_name_to_announcement : String → Option AnnouncementTypeDto
queue_name_to_announcement queue_name = get queue_name_to_announcement_map queue_name

-- ANNOUNCEMENT_TO_SCHEMA_ID_DEV
unfoldable pub schema_id_dev : AnnouncementTypeDto → ℕ
schema_id_dev tombstone = 1
schema_id_dev broadcast = 2
schema_id_dev reply = 3
schema_id_dev reaction = 4
schema_id_dev profile = 5
schema_id_dev update = 6

-- ANNOUNCEMENT_TO_SCHEMA_ID_ROCOCO
unfoldable pub schema_id_rococo : AnnouncementTypeDto → ℕ
schema_id_rococo tombstone = 1
schema_id_rococo broadcast = 2
schema_id_rococo reply = 3
schema_id_rococo reaction = 4
schema_id_rococo profile = 5
schema_id_rococo update = 6

-- ANNOUNCEMENT_TO_SCHEMA_ID_MAIN_NET
unfoldable pub schema_id_main_net : AnnouncementTypeDto → ℕ
schema_id_main_net tombstone = 1
schema_id_main_net broadcast = 2
schema_id_main_net reply = 3
schema_id_main_net reaction = 4
schema_id_main_net profile = 6
schema_id_main_net update = 5

unfoldable pub get_schema_id : ChainEnvironment → AnnouncementTypeDto → ℕ
unfolding schema_id_dev schema_id_rococo schema_id_main_net
get_schema_id mainnet announcement_type = schema_id_main_net announcement_type
get_schema_id testnet_paseo announcement_type = schema_id_main_net announcement_type
get_schema_id rococo announcement_type = schema_id_rococo announcement_type
get_schema_id dev announcement_type = schema_id_dev announcement_type
