-- ===== src/Batching/Metadata.antt =====
-- The metadata of a batch, and the keys of a queue's batch: libs/common/src/interfaces and
-- libs/common/src/utils/redis.ts.
use mathlib.Core.Bool.{false≢true}
use text.Mathlib.TextLemmas.{append_cancel_left}
use content_publishing_servi.Common.{
  ℕ, String, ◌+++◌, Option, ◌≡◌, false, ◌==ₛ◌, append-==-false, refl, ==-false, sym, ◌∙◌, eq_iff,
}

-- IBatchMetadata, with what the scripts may find missing, and the time that lockBatch.lua adds
pub record BatchMetadata : Type 0 where
  pub batch_id : String
  pub start_timestamp : ℕ
  pub row_count : Option ℕ
  pub lock_timestamp : Option ℕ

unfoldable pub get_batch_data_key : String → String
get_batch_data_key queue_name = "batch:data:" +++ queue_name

unfoldable pub get_batch_metadata_key : String → String
get_batch_metadata_key queue_name = "batch:metadata:" +++ queue_name

unfoldable pub get_lock_key : String → String
get_lock_key suffix = "locked:" +++ suffix

-- The keys of the batch that is open, and of the batch that is being closed.
pub record BatchKeys : Type 0 where
  pub metadata : String
  pub rows : String
  pub locked_metadata : String
  pub locked_rows : String

abbrev pub keys_of : String → BatchKeys
keys_of queue_name = record {
  metadata = get_batch_metadata_key queue_name;
  rows = get_batch_data_key queue_name;
  locked_metadata = get_lock_key (get_batch_metadata_key queue_name);
  locked_rows = get_lock_key (get_batch_data_key queue_name);
}

-- No two of the four keys are one, in either order of comparison.
pub record AreApart (ks : BatchKeys) : Type 0 where
  pub mr : (ks.metadata ==ₛ ks.rows) ≡ false
  pub rm : (ks.rows ==ₛ ks.metadata) ≡ false
  pub ml : (ks.metadata ==ₛ ks.locked_metadata) ≡ false
  pub lm : (ks.locked_metadata ==ₛ ks.metadata) ≡ false
  pub mk : (ks.metadata ==ₛ ks.locked_rows) ≡ false
  pub km : (ks.locked_rows ==ₛ ks.metadata) ≡ false
  pub rl : (ks.rows ==ₛ ks.locked_metadata) ≡ false
  pub lr : (ks.locked_metadata ==ₛ ks.rows) ≡ false
  pub rk : (ks.rows ==ₛ ks.locked_rows) ≡ false
  pub kr : (ks.locked_rows ==ₛ ks.rows) ≡ false
  pub lk : (ks.locked_metadata ==ₛ ks.locked_rows) ≡ false
  pub kl : (ks.locked_rows ==ₛ ks.locked_metadata) ≡ false

pub lock_key-==-false :
    (s t : String) → (s ==ₛ t) ≡ false → (get_lock_key s ==ₛ get_lock_key t) ≡ false
unfolding get_lock_key
lock_key-==-false s t h =
    ==-false _ _ λ e. false≢true (sym h ∙ (eq_iff s t).1 (append_cancel_left "locked:" s t e))

pub keys_of-AreApart : (q : String) → AreApart (keys_of q)
unfolding get_batch_data_key get_batch_metadata_key get_lock_key
keys_of-AreApart q = record {
  mr = append-==-false "batch:m" "batch:d" "etadata:" "ata:" q q refl refl;
  rm = append-==-false "batch:d" "batch:m" "ata:" "etadata:" q q refl refl;
  ml = append-==-false "b" "l" "atch:metadata:" "ocked:" q _ refl refl;
  lm = append-==-false "l" "b" "ocked:" "atch:metadata:" _ q refl refl;
  mk = append-==-false "b" "l" "atch:metadata:" "ocked:" q _ refl refl;
  km = append-==-false "l" "b" "ocked:" "atch:metadata:" _ q refl refl;
  rl = append-==-false "b" "l" "atch:data:" "ocked:" q _ refl refl;
  lr = append-==-false "l" "b" "ocked:" "atch:data:" _ q refl refl;
  rk = append-==-false "b" "l" "atch:data:" "ocked:" q _ refl refl;
  kr = append-==-false "l" "b" "ocked:" "atch:data:" _ q refl refl;
  lk = lock_key-==-false _ _ (append-==-false "batch:m" "batch:d" "etadata:" "ata:" q q refl refl);
  kl = lock_key-==-false _ _ (append-==-false "batch:d" "batch:m" "ata:" "etadata:" q q refl refl);
}
