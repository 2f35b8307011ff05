-- ===== src/Publisher/Submitting.antt =====
-- IPFSPublisher of apps/worker/src/publisher/ipfs.publisher.ts: a batch is sent to the chain.
use content_publishing_servi.Common.{ℕ, String, Option, none, some, ◌==ₛ◌, if◌then◌else◌}
use content_publishing_servi.Services.Redis.{Redis}
use content_publishing_servi.Nonce.{get_next_nonce}
use content_publishing_servi.Monitor.{PublisherJob}

-- What an awaited call gives: its answer, or the message of the error that rejects it
pub data Answer (A : Type 0) : Type 0 where
  answered : A → Answer A
  rejected : String → Answer A

abbrev and_then : {A B : Type 0} → Answer A → (A → Answer B) → Answer B
and_then (answered a) f = f a
and_then (rejected message) f = rejected message

-- The node as the publisher calls it
pub record Submitter : Type 1 where
  pub Extrinsic : Type 0
  pub latest_finalized_block_hash : Answer String
  pub create_extrinsic : PublisherJob → Answer Extrinsic
  pub nonce : Answer ℕ
  pub sign_and_send : Extrinsic → ℕ → Answer (Option String)

-- `if (!txHash) throw`; the empty text is falsy too
unfoldable pub sent_hash : Option String → Answer String
sent_hash none = rejected "Tx hash is undefined"
sent_hash (some tx_hash) =
    if tx_hash ==ₛ "" then rejected "Tx hash is undefined" else answered tx_hash

module _ (redis : Redis) (submitter : Submitter) where
  -- The steps of processSingleBatch once there is an extrinsic and the chain's nonce
  unfoldable pub send : redis.Db → submitter.Extrinsic → Answer ℕ → Answer String × redis.Db
  unfolding sent_hash
  send db ext (rejected message) = (rejected message, db)
  send db ext (answered nonce) =
      let (next_nonce, db') = get_next_nonce redis db nonce in
      (and_then (submitter.sign_and_send ext next_nonce) sent_hash, db')

  unfoldable pub process_single_batch :
      redis.Db → Answer submitter.Extrinsic → Answer String × redis.Db
  unfolding send
  process_single_batch db (rejected message) = (rejected message, db)
  process_single_batch db (answered ext) = send db ext submitter.nonce

  unfoldable pub publish : redis.Db → PublisherJob → Answer String × redis.Db
  unfolding process_single_batch
  publish db message = process_single_batch db (submitter.create_extrinsic message)
