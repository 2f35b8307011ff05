-- ===== src/Blockchain/Crawl.antt =====
-- crawlBlockListForTx of libs/common/src/blockchain/blockchain.service.ts.
use content_publishing_servi.Common.{
  ◌>>=◌, ℕ, ◌+◌, String, Option, none, some, List, [], ◌∷◌, Bool, true, false, ◌==ₛ◌, ◌==◌, ◌&&◌,
  ◌||◌, if◌then◌else◌,
}

-- RegistryError: the module error's name
pub record RegistryError : Type 0 where
  pub method : String

-- An event record of a block. `failed` is there for system.ExtrinsicFailed, and is none inside
-- where the dispatch error is no module error, so that reading it as one throws.
pub record ChainEvent : Type 0 where
  pub applied_to : Option ℕ
  pub section : String
  pub method : String
  pub withdrawn : Option ℕ
  pub failed : Option (Option RegistryError)

-- The chain; a call that is rejected is none.
pub record Chain : Type 0 where
  pub get_block_hash : ℕ → Option String
  pub extrinsic_hashes : String → Option (List String)
  pub epoch_at : String → Option ℕ
  pub events_at : String → Option (List ChainEvent)

-- What crawlBlockListForTx returns. The consumers read capacityWithdrawn; the crawl writes
-- capacityWithDrawn.
pub record Receipt : Type 0 where
  pub found : Bool
  pub success : Bool
  pub block_hash : Option String
  pub capacity_epoch : Option ℕ
  pub capacity_withdrawn : Option ℕ
  pub capacity_with_drawn : Option ℕ
  pub error : Option RegistryError

abbrev pub not_found : Receipt
not_found = record {
  found = false;
  success = false;
  block_hash = none;
  capacity_epoch = none;
  capacity_withdrawn = none;
  capacity_with_drawn = none;
  error = none;
}

-- findIndex(extrinsic => extrinsic.hash === txHash) from the index `i` on; -1 is none
unfoldable pub find_index : List String → String → ℕ → Option ℕ
find_index [] tx_hash i = none
find_index (hash ∷ rest) tx_hash i =
    let later = find_index rest tx_hash (i + 1) in if hash ==ₛ tx_hash then some i else later

-- phase.isApplyExtrinsic && phase.asApplyExtrinsic.eq(txIndex)
abbrev applies_to : Option ℕ → ℕ → Bool
applies_to none tx_index = false
applies_to (some i) tx_index = i == tx_index

unfoldable pub events_of : List ChainEvent → ℕ → List ChainEvent
events_of [] tx_index = []
events_of (e ∷ rest) tx_index =
    let more = events_of rest tx_index in
    if applies_to e.applied_to tx_index then e ∷ more else more

-- successEvents.find(…)
unfoldable pub is_success_event : List (String × String) → ChainEvent → Bool
is_success_event [] e = false
is_success_event ((pallet, event) ∷ rest) e =
    (pallet ==ₛ e.section && event ==ₛ e.method) || is_success_event rest e

-- isTxSuccess, totalBlockCapacity and txError
pub record Tally : Type 0 where
  pub is_tx_success : Bool
  pub total_block_capacity : ℕ
  pub tx_error : Option RegistryError

abbrev pub no_tally : Tally
no_tally = record { is_tx_success = false; total_block_capacity = 0; tx_error = none }

abbrev add_withdrawn : Option ℕ → ℕ → ℕ
add_withdrawn none total = total
add_withdrawn (some amount) total = total + amount

-- The first two ifs of the loop's body.
unfoldable pub tally_event : List (String × String) → Tally → ChainEvent → Tally
unfolding is_success_event
tally_event success_events t e = record t {
  total_block_capacity = add_withdrawn e.withdrawn t.total_block_capacity;
  is_tx_success = is_success_event success_events e || t.is_tx_success;
}

-- events.forEach(…). An event whose dispatch error is no module error throws: the loop ends, and
-- the catch block around it keeps what has been tallied.
unfoldable pub tally_events : List (String × String) → Tally → List ChainEvent → Tally
unfolding tally_event
tally_events success_events t [] = t
tally_events success_events t (e ∷ rest) =
    let t' = tally_event success_events t e in
    elim e.failed [
      | none ↦ tally_events success_events t' rest
      | some none ↦ t'
      | some (some error) ↦ tally_events success_events (record t' { tx_error = some error }) rest
    ]

-- The events are awaited inside the try block: if they are rejected nothing is tallied.
abbrev tally_block : List (String × String) → ℕ → Option (List ChainEvent) → Tally
tally_block success_events tx_index none = no_tally
tally_block success_events tx_index (some events) =
    tally_events success_events no_tally (events_of events tx_index)

-- The end of the callback, once the transaction has been found at an index.
unfoldable pub receipt_at : Chain → List (String × String) → String → Option ℕ → Option Receipt
unfolding tally_events events_of
receipt_at chain success_events block_hash none = some not_found
receipt_at chain success_events block_hash (some tx_index) = do
  capacity_epoch ← chain.epoch_at block_hash
  let tally = tally_block success_events tx_index (chain.events_at block_hash)
  some (record {
    found = true;
    success = tally.is_tx_success;
    block_hash = some block_hash;
    capacity_epoch = some capacity_epoch;
    capacity_withdrawn = none;
    capacity_with_drawn = some tally.total_block_capacity;
    error = tally.tx_error;
  })

-- The callback for one block number; none if its promise is rejected.
unfoldable pub crawl_block : Chain → String → List (String × String) → ℕ → Option Receipt
unfolding find_index receipt_at
crawl_block chain tx_hash success_events block_number = do
  block_hash ← chain.get_block_hash block_number
  extrinsics ← chain.extrinsic_hashes block_hash
  receipt_at chain success_events block_hash (find_index extrinsics tx_hash 0)

-- Promise.all over the callbacks; one rejection rejects it
unfoldable pub all_receipts :
    Chain → String → List (String × String) → List ℕ → Option (List Receipt)
unfolding crawl_block
all_receipts chain tx_hash success_events [] = some []
all_receipts chain tx_hash success_events (n ∷ rest) = do
  receipt ← crawl_block chain tx_hash success_events n
  more ← all_receipts chain tx_hash success_events rest
  some (receipt ∷ more)

-- results.find(receipt => receipt.found) ?? { found: false, success: false }
unfoldable pub first_found : List Receipt → Receipt
first_found [] = not_found
first_found (r ∷ rest) = if r.found then r else first_found rest

unfoldable pub crawl_block_list_for_tx :
    Chain → String → List ℕ → List (String × String) → Option Receipt
unfolding all_receipts first_found
crawl_block_list_for_tx chain tx_hash block_list success_events = do
  results ← all_receipts chain tx_hash success_events block_list
  some (first_found results)
