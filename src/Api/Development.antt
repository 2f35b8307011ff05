-- ===== src/Api/Development.antt =====
-- DevelopmentController of apps/api/src/development.controller.ts: looking at a pinned asset, and filling
-- the queues with announcements made up from random numbers.
pub mod Populate
mod Tests
use content_publishing_servi.Common.{
  ℕ, zero, suc, ◌+◌, String, ◌+++◌, Option, none, some, List, [], ◌∷◌, Bool, true, false, ◌==ₛ◌,
  if◌then◌else◌, show, ◌>>=◌,
}
use content_publishing_servi.Queues.{
  get, AnnouncementTypeDto, broadcast, reply, reaction, update, tombstone, profile,
  broadcast_queue_name, reply_queue_name, reaction_queue_name, update_queue_name,
  tombstone_queue_name, profile_queue_name,
}
use content_publishing_servi.Dsnp.{
  Announcement, broadcast_type, reply_type, create_tombstone, create_broadcast, create_reply,
  create_reaction, create_profile, create_update,
}
use content_publishing_servi.IpfsClient.{
  Tools, IpfsConfig, Hasher, calculate_dsnp_hash, is_pinned, get_pinned,
}
use content_publishing_servi.IpfsClient.Node.{Server}

-- The texts of enum AnnouncementTypeDto
unfoldable pub announcement_type_text : AnnouncementTypeDto → String
announcement_type_text broadcast = "broadcast"
announcement_type_text reply = "reply"
announcement_type_text reaction = "reaction"
announcement_type_text update = "update"
announcement_type_text tombstone = "tombstone"
announcement_type_text profile = "profile"

-- The answer to GET /dev/asset/:assetId
pub data AssetAnswer : Type 0 where
  found : String → AssetAnswer
  not_found : String → AssetAnswer
  rejected : AssetAnswer

module _ (tools : Tools) (config : IpfsConfig)
    (server : Server tools.cids config.ipfs_endpoint) where
  unfoldable pub asset_content : Option String → AssetAnswer
  asset_content none = rejected
  asset_content (some content) = found content

  -- getAsset at what isPinned answers
  unfoldable pub asset_answer : server.Store → String → Option Bool → AssetAnswer
  unfolding asset_content get_pinned
  asset_answer store asset_id none = rejected
  asset_answer store asset_id (some true) =
      asset_content (get_pinned tools config server store asset_id false)
  asset_answer store asset_id (some false) = not_found (asset_id +++ " does not exist")

  unfoldable pub get_asset : server.Store → String → AssetAnswer
  unfolding asset_answer is_pinned
  get_asset store asset_id =
      asset_answer store asset_id (is_pinned tools config server store asset_id)

-- The random numbers of one round, each Math.floor(Math.random() * 100000000)
pub record Draws : Type 0 where
  pub from_id : ℕ
  pub hash : ℕ
  pub at_url : ℕ
  pub at_target : ℕ
  pub at_user : ℕ

-- A call of a queue's add
pub record DummyJob : Type 0 where
  pub queue_name : String
  pub name : String
  pub announcement : Announcement
  pub job_id : String

-- queueMapper, with the queue that the framework injects for each name
abbrev pub queue_mapper : List (String × String)
queue_mapper =
    ("broadcast", broadcast_queue_name)
    ∷ ("reply", reply_queue_name)
    ∷ ("reaction", reaction_queue_name)
    ∷ ("update", update_queue_name)
    ∷ ("profile", profile_queue_name)
    ∷ ("tombstone", tombstone_queue_name)
    ∷ []

unfoldable pub example_url : ℕ → String
example_url n = "https://example.com/" +++ show n

unfoldable pub dsnp_target : Draws → String
dsnp_target d = "dsnp://0x" +++ (show d.at_user +++ ("/0x" +++ show d.at_target))

-- The switch of populate; the default branch throws
unfoldable pub dummy_data : String → Draws → Option Announcement
unfolding example_url dsnp_target
dummy_data queue_type d =
    let from_id = show d.from_id in
    let hash = show d.hash in
    if queue_type ==ₛ "broadcast"
    then some (create_broadcast from_id (example_url d.at_url) hash)
    else if queue_type ==ₛ "profile"
    then some (create_profile from_id (example_url d.at_url) hash)
    else if queue_type ==ₛ "update"
    then some (create_update from_id (example_url d.at_url) hash broadcast_type (show d.at_target))
    else if queue_type ==ₛ "reply"
    then some (create_reply from_id (example_url d.at_url) hash (dsnp_target d))
    else if queue_type ==ₛ "reaction"
    then some (create_reaction from_id "🤌🏼" (dsnp_target d) 1)
    else if queue_type ==ₛ "tombstone"
    then some (create_tombstone from_id reply_type hash)
    else none

module _ (hasher : Hasher) (announcement_json : Announcement → String) where
  -- The add of one round. No announcement has an `id`, so that its name ends in `undefined`.
  unfoldable pub dummy_job : Announcement → String → DummyJob
  unfolding calculate_dsnp_hash
  dummy_job announcement queue_name = record {
    queue_name = queue_name;
    name = "Dummy Job - undefined";
    announcement = announcement;
    job_id = calculate_dsnp_hash hasher (announcement_json announcement);
  }

  -- populate: the loop from `i` on, for `count` rounds, with the numbers that each round draws. The
  -- calls of add, in their order; none if it throws, and then no call has been made.
  unfoldable pub populate : (ℕ → Draws) → String → ℕ → ℕ → Option (List DummyJob)
  unfolding dummy_data dummy_job
  populate draws queue_type i zero = some []
  populate draws queue_type i (suc count) = do
    data_of_round ← dummy_data queue_type (draws i)
    queue_name ← get queue_mapper queue_type
    rest ← populate draws queue_type (i + 1) count
    some (dummy_job data_of_round queue_name ∷ rest)
