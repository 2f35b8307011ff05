-- ===== src/Blockchain.antt =====
-- Looking a transaction up on the chain: crawlBlockListForTx and capacityInfo of
-- libs/common/src/blockchain/blockchain.service.ts, with its connection and its extrinsics below.
pub mod Crawl
pub mod Search
pub mod Capacity
pub mod Extrinsic
pub mod Connection
mod Tests
