-- ===== src/Blockchain/Search.antt =====
-- What crawlBlockListForTx of libs/common/src/blockchain/blockchain.service.ts finds in the blocks
-- it is given.
use content_publishing_servi.Common.{
  ◌>>=◌, ℕ, ◌+◌, String, Option, none, some, List, [], ◌∷◌, Bool, true, false, ◌==ₛ◌, ◌||◌,
  if◌then◌else◌, is_some, Bool-cases, inl, inr, All, ◌≡◌, refl, sym,
}
use mathlib.Core.Path.{subst}
use mathlib.Core.Option.{none-ne-some, some-injective}
use content_publishing_servi.Blockchain.Crawl.{
  Chain, Receipt, not_found, find_index, receipt_at, crawl_block, all_receipts, first_found,
  crawl_block_list_for_tx,
}

-- A block the node knows, with its hash, its extrinsics and the epoch it lies in
pub record IsReadable (chain : Chain) (n : ℕ) : Type 0 where
  pub hash : String
  pub extrinsics : List String
  pub epoch : ℕ
  pub hash_eq : chain.get_block_hash n ≡ some hash
  pub extrinsics_eq : chain.extrinsic_hashes hash ≡ some extrinsics
  pub epoch_eq : chain.epoch_at hash ≡ some epoch

unfoldable pub lists : List String → String → Bool
lists [] tx_hash = false
lists (hash ∷ rest) tx_hash = hash ==ₛ tx_hash || lists rest tx_hash

-- The hash of the first of the blocks whose extrinsics list the transaction
unfoldable pub first_holder :
    (chain : Chain) → String → (ns : List ℕ) → All (IsReadable chain) ns → Option String
unfolding lists
first_holder chain tx_hash [] readable = none
first_holder chain tx_hash (n ∷ rest) (block, readable) =
    let later = first_holder chain tx_hash rest readable in
    if lists block.extrinsics tx_hash then some block.hash else later

find_index-is_some :
    (hashes : List String) (tx_hash : String) (i : ℕ)
    → is_some (find_index hashes tx_hash i) ≡ lists hashes tx_hash
unfolding find_index lists
find_index-is_some [] tx_hash i = refl
find_index-is_some (hash ∷ rest) tx_hash i = elim (Bool-cases (hash ==ₛ tx_hash)) [
  | inl e ↦ rw e refl
  | inr e ↦ rw e (find_index-is_some rest tx_hash (i + 1))
]

-- What one block's receipt says
pub record Reports (r : Receipt) (holder : Option String) : Type 0 where
  pub found_eq : r.found ≡ is_some holder
  pub block_hash_eq : r.block_hash ≡ holder
  pub withdrawn_eq : r.capacity_withdrawn ≡ none

abbrev holder_at : String → Bool → Option String
holder_at hash holds = if holds then some hash else none

receipt_at-Reports :
    (chain : Chain) (events : List (String × String)) (hash : String) (epoch : ℕ) (i : Option ℕ)
    → chain.epoch_at hash ≡ some epoch
    → (r : Receipt) × (receipt_at chain events hash i ≡ some r)
      × Reports r (holder_at hash (is_some i))
unfolding receipt_at
receipt_at-Reports chain events hash epoch none e =
    (not_found, refl, record { found_eq = refl; block_hash_eq = refl; withdrawn_eq = refl })
receipt_at-Reports chain events hash epoch (some i) e =
    rw e (_, refl, record { found_eq = refl; block_hash_eq = refl; withdrawn_eq = refl })

crawl_block-Reports :
    (chain : Chain) (tx_hash : String) (events : List (String × String)) (n : ℕ)
    (block : IsReadable chain n)
    → (r : Receipt) × (crawl_block chain tx_hash events n ≡ some r)
      × Reports r (holder_at block.hash (lists block.extrinsics tx_hash))
unfolding crawl_block
crawl_block-Reports chain tx_hash events n block =
    rw (block.hash_eq, block.extrinsics_eq, sym (find_index-is_some block.extrinsics tx_hash 0))
      (receipt_at-Reports chain events block.hash block.epoch _ block.epoch_eq)

first_found-Reports :
    (r : Receipt) (rs : List Receipt) (holds : Bool) (hash : String) (later : Option String)
    → Reports r (holder_at hash holds)
    → Reports (first_found rs) later
    → Reports (first_found (r ∷ rs)) (if holds then some hash else later)
unfolding first_found
first_found-Reports r rs true hash later now after =
    subst (λ b. Reports (if b then r else first_found rs) (some hash)) (sym now.found_eq) now
first_found-Reports r rs false hash later now after =
    subst (λ b. Reports (if b then r else first_found rs) later) (sym now.found_eq) after

-- The receipts, and the one picked
all_receipts-Reports :
    (chain : Chain) (tx_hash : String) (events : List (String × String)) (ns : List ℕ)
    (readable : All (IsReadable chain) ns)
    → (rs : List Receipt) × (all_receipts chain tx_hash events ns ≡ some rs)
      × Reports (first_found rs) (first_holder chain tx_hash ns readable)
unfolding all_receipts first_found first_holder
all_receipts-Reports chain tx_hash events [] readable =
    ([], refl, record { found_eq = refl; block_hash_eq = refl; withdrawn_eq = refl })
all_receipts-Reports chain tx_hash events (n ∷ rest) (block, readable) =
    let (r, r_eq, r_reports) = crawl_block-Reports chain tx_hash events n block in
    let (rs, rs_eq, rs_reports) = all_receipts-Reports chain tx_hash events rest readable in
    (
      r ∷ rs,
      rw (r_eq, rs_eq) refl,
      first_found-Reports r rs (lists block.extrinsics tx_hash) block.hash _ r_reports rs_reports,
    )

-- On blocks the node knows the crawl succeeds, and it reports the first of them whose extrinsics
-- list the transaction: it is found exactly if there is such a block, and the block hash is that
-- block's. Whatever it finds, the field that its consumers read for the capacity withdrawn is
-- missing.
pub crawl_block_list_for_tx-first_holder :
    (chain : Chain) (tx_hash : String) (events : List (String × String)) (ns : List ℕ)
    (readable : All (IsReadable chain) ns)
    → (r : Receipt) × (crawl_block_list_for_tx chain tx_hash ns events ≡ some r)
      × Reports r (first_holder chain tx_hash ns readable)
unfolding crawl_block_list_for_tx
crawl_block_list_for_tx-first_holder chain tx_hash events ns readable =
    let (rs, rs_eq, reports) = all_receipts-Reports chain tx_hash events ns readable in
    (first_found rs, rw rs_eq refl, reports)

-- A result that names no capacity withdrawn
abbrev IsSilent : Option Receipt → Type 0
IsSilent none = Unit
IsSilent (some r) = r.capacity_withdrawn ≡ none

abbrev AllSilent : Option (List Receipt) → Type 0
AllSilent none = Unit
AllSilent (some rs) = All (λ r. r.capacity_withdrawn ≡ none) rs

>>=-IsSilent :
    {A : Type 0} (o : Option A) (f : A → Option Receipt)
    → ((a : A) → IsSilent (f a))
    → IsSilent (o >>= f)
>>=-IsSilent none f h = tt
>>=-IsSilent (some a) f h = h a

receipt_at-IsSilent :
    (chain : Chain) (events : List (String × String)) (hash : String) (i : Option ℕ)
    → IsSilent (receipt_at chain events hash i)
unfolding receipt_at
receipt_at-IsSilent chain events hash none = refl
receipt_at-IsSilent chain events hash (some i) =
    >>=-IsSilent (chain.epoch_at hash) _ (λ epoch. refl)

crawl_block-IsSilent :
    (chain : Chain) (tx_hash : String) (events : List (String × String)) (n : ℕ)
    → IsSilent (crawl_block chain tx_hash events n)
unfolding crawl_block
crawl_block-IsSilent chain tx_hash events n = >>=-IsSilent (chain.get_block_hash n) _ (λ hash.
    >>=-IsSilent (chain.extrinsic_hashes hash) _
      (λ hashes. receipt_at-IsSilent chain events hash (find_index hashes tx_hash 0)))

collect :
    (o : Option Receipt) (os : Option (List Receipt))
    → IsSilent o
    → AllSilent os
    → AllSilent (o >>= λ r. os >>= λ rs. some (r ∷ rs))
collect none os h hs = tt
collect (some r) none h hs = tt
collect (some r) (some rs) h hs = (h, hs)

all_receipts-AllSilent :
    (chain : Chain) (tx_hash : String) (events : List (String × String)) (ns : List ℕ)
    → AllSilent (all_receipts chain tx_hash events ns)
unfolding all_receipts
all_receipts-AllSilent chain tx_hash events [] = tt
all_receipts-AllSilent chain tx_hash events (n ∷ rest) =
    collect (crawl_block chain tx_hash events n) (all_receipts chain tx_hash events rest)
      (crawl_block-IsSilent chain tx_hash events n)
      (all_receipts-AllSilent chain tx_hash events rest)

pick-silent :
    (b : Bool) (r r' : Receipt)
    → r.capacity_withdrawn ≡ none
    → r'.capacity_withdrawn ≡ none
    → (if b then r else r').capacity_withdrawn ≡ none
pick-silent true r r' p q = p
pick-silent false r r' p q = q

first_found-silent :
    (rs : List Receipt)
    → All (λ r. r.capacity_withdrawn ≡ none) rs
    → (first_found rs).capacity_withdrawn ≡ none
unfolding first_found
first_found-silent [] h = refl
first_found-silent (r ∷ rs) (h, hs) =
    pick-silent r.found r (first_found rs) h (first_found-silent rs hs)

silent-of :
    (os : Option (List Receipt)) (r : Receipt)
    → AllSilent os
    → (os >>= λ rs. some (first_found rs)) ≡ some r
    → r.capacity_withdrawn ≡ none
silent-of none r h e = absurd (none-ne-some r e)
silent-of (some rs) r h e =
    subst (λ s. s.capacity_withdrawn ≡ none) (some-injective _ _ e) (first_found-silent rs h)

-- No receipt of the crawl has the field capacityWithdrawn.
pub crawl_block_list_for_tx-withdrawn :
    (chain : Chain) (tx_hash : String) (events : List (String × String)) (ns : List ℕ) (r : Receipt)
    → crawl_block_list_for_tx chain tx_hash ns events ≡ some r
    → r.capacity_withdrawn ≡ none
unfolding crawl_block_list_for_tx
crawl_block_list_for_tx-withdrawn chain tx_hash events ns r =
    silent-of (all_receipts chain tx_hash events ns) r
      (all_receipts-AllSilent chain tx_hash events ns)
