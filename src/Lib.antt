-- ===== src/Lib.antt =====
-- Verification of the content publishing service: an API that takes DSNP requests and assets, and a
-- worker that turns requests into announcements, collects these in batches, publishes the batches as
-- messages on the chain and watches the transactions.
--
-- How the parts interact. apps/api/src/api.service.ts validates the assets of a request and adds it
-- to the request queue. The worker of apps/worker/src/request_processor waits until the assets are
-- pinned, makes the announcement and adds it to the queue of its type (libs/common/src/utils/
-- queues.ts). apps/worker/src/batching_processor collects the announcements of one queue in a batch
-- in Redis, with lua/addToBatch.lua and lua/lockBatch.lua, and adds a job for each batch that is
-- closed. apps/worker/src/publisher publishes such a job with a nonce that lua/incrementNonce.lua
-- has picked, and asks the receipt queue to watch the transaction; apps/worker/src/monitor looks the
-- transaction up, counts the capacity it used and may add the publish job again.
--
-- The files:
--   Common      names, tests, lists, decimal texts
--   Services    Redis, the scheduler registry and JSON texts as records of operations and laws, with
--               plain functions that meet the laws (Services/Memory, Services/Formats)
--   Queues      libs/common/src/utils/queues.ts and dsnp.schema.ts
--   Dsnp        libs/common/src/interfaces/dsnp.ts
--   Api         apps/api/src/api.service.ts, and the endpoints of content.controller.ts and
--               profile.controller.ts in Api/Controllers; development.controller.ts in
--               Api/Development
--   Announcer   batch.announcer.ts and batch.announcer.service.ts
--   Requests    apps/worker/src/request_processor: Attachments and Announcing for
--               dsnp.announcement.processor.ts, Dependencies for request.processor.service.ts
--   Batching    batching.processor.service.ts; Scripts has the two scripts, Spec and Closing the
--               batches without Redis that they are compared with, Setup the timeouts that a start
--               sets up, and Workers the six workers
--   Pipeline    a request from the endpoint to its batch; Pipeline/Queueing has its first half
--   Nonce       nonce.service.ts and lua/incrementNonce.lua
--   Publisher   publishing.service.ts; Publisher/Submitting has ipfs.publisher.ts, and
--               Publisher/Lifecycle the start, and the shutdown with that of the announcer
--   Blockchain  libs/common/src/blockchain: crawlBlockListForTx and capacityInfo of
--               blockchain.service.ts; its connection in Blockchain/Connection, and extrinsic.ts in
--               Blockchain/Extrinsic
--   Config      the schema of libs/common/src/config/env.config.ts
--   Monitor     tx.status.monitor.service.ts
--   Assets      apps/worker/src/asset_processor/asset.processor.service.ts
--   IpfsClient  libs/common/src/utils/ipfs.client.ts and ipfs.ts; IpfsClient/Node has the server and the
--               library of content identifiers
--   Dtos        the rules of libs/common/src/dtos on the content of a request; Dtos/Patterns has the
--               regular expressions
--   Uris        libs/common/src/utils/dsnp-validation.decorator.ts
--   Consumer    apps/worker/src/BaseConsumer.ts
--
-- State. A service's state is a record (BatchState, PublisherState) or the Redis database alone, and
-- an operation takes it and gives it back with its outcome. A call of a queue, of the chain or of
-- IPFS is a parameter: a rejection is none, a false flag or a constructor of its own. The jobs of the
-- batch queue are the adds that it accepted, each with its jobId; it keeps one job of each id. A
-- script runs as one step. Requests that run at one time complete in an order that is a parameter, a
-- permutation. Times, random ids and the answers of the node are arguments.
--
-- Fuel. closeBatch calls itself, and takes a list of rounds with what happens in each of them. The
-- loop of the monitor has fuel for 33 rounds and stops by its own guard after 32; the shutdown of a
-- consumer has fuel for 6000 rounds, each of which takes 300 of its 6000 milliseconds. The runs of
-- one request take as fuel their number.
--
-- Not modelled: HTTP, the signatures, and the wiring of the framework. Keys that expire are not
-- followed over time: what is stored is what has not expired. Numbers are
-- natural numbers; in a request's content they are kept as their JSON texts. BigInt reads decimal
-- digits without sign, prefix and blanks, which is what the program writes; of the provider id it
-- reads a minus sign too.
pub mod Common
pub mod Services
pub mod Queues
pub mod Nonce
pub mod Batching
pub mod Dsnp
pub mod Blockchain
pub mod Monitor
pub mod Publisher
pub mod Requests
pub mod Announcer
pub mod Assets
pub mod Uris
pub mod IpfsClient
pub mod Consumer
pub mod Api
pub mod Pipeline
pub mod Config
pub mod Dtos
