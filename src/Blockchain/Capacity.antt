-- ===== src/Blockchain/Capacity.antt =====
-- What the service reads of a provider's capacity: capacityInfo, getCurrentCapacityEpoch and
-- getCurrentEpochLength of libs/common/src/blockchain/blockchain.service.ts.
use content_publishing_servi.Common.{◌>>=◌, ℕ, ◌+◌, String, Option, none, some}

-- The answers of the chain's queries; a query that is rejected is none.
pub record CapacityQueries : Type 0 where
  pub epoch_start : Option ℕ
  pub epoch_length : Option ℕ
  -- the ledger's remaining capacity and total capacity, and that there is no entry
  pub capacity_ledger : Option (Option (ℕ × ℕ))
  pub current_block : Option ℕ
  pub current_epoch : Option ℕ

pub record CapacityInfo : Type 0 where
  pub provider_id : String
  pub current_block_number : ℕ
  pub next_epoch_start : ℕ
  pub remaining_capacity : ℕ
  pub total_capacity_issued : ℕ
  pub current_epoch : ℕ

-- unwrapOr({ remainingCapacity: 0, totalCapacityIssued: 0 })
abbrev ledger_or_zero : Option (ℕ × ℕ) → ℕ × ℕ
ledger_or_zero none = (0, 0)
ledger_or_zero (some l) = l

unfoldable pub capacity_info : CapacityQueries → String → Option CapacityInfo
capacity_info chain provider_id = do
  epoch_start ← chain.epoch_start
  epoch_block_length ← chain.epoch_length
  ledger ← chain.capacity_ledger
  current_block ← chain.current_block
  current_epoch ← chain.current_epoch
  some (record {
    provider_id = provider_id;
    current_block_number = current_block;
    next_epoch_start = epoch_start + epoch_block_length;
    remaining_capacity = (ledger_or_zero ledger).0;
    total_capacity_issued = (ledger_or_zero ledger).1;
    current_epoch = current_epoch;
  })
