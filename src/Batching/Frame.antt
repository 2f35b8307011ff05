-- ===== src/Batching/Frame.antt =====
-- The batching of one queue leaves the keys of another queue as they are.
use text.Mathlib.TextLemmas.{append_cancel_left}
use content_publishing_servi.Common.{
  ℕ, String, Bool, true, false, ◌≡◌, ◌≢◌, refl, ◌∙◌, ◌==ₛ◌, inl, inr, Option-cases, Bool-cases,
  append-==-false, ==-false,
}
use content_publishing_servi.Services.Redis.{Redis, is_present, Entry-cases}
use content_publishing_servi.Services.Codec.{Codec}
use content_publishing_servi.Services.Scheduler.{Scheduler}
use content_publishing_servi.Dsnp.{Announcement}
use content_publishing_servi.Batching.{BatchTimeout, BatchConfig, BatchState, delete_locked}
use content_publishing_servi.Batching.Keeping.{IsKept}
use content_publishing_servi.Batching.Metadata.{
  BatchMetadata, BatchKeys, keys_of, get_batch_data_key, get_batch_metadata_key, get_lock_key,
  lock_key-==-false,
}
use content_publishing_servi.Batching.Scripts.{lock_batch, take_rows, stamp_lock}

-- None of the four keys is `k`.
pub record IsFar (ks : BatchKeys) (k : String) : Type 0 where
  pub at_metadata : (ks.metadata ==ₛ k) ≡ false
  pub at_rows : (ks.rows ==ₛ k) ≡ false
  pub at_locked_metadata : (ks.locked_metadata ==ₛ k) ≡ false
  pub at_locked_rows : (ks.locked_rows ==ₛ k) ≡ false

module _ (redis : Redis) (metadata_json : Codec BatchMetadata) (ks : BatchKeys) (k : String)
    (far : IsFar ks k) where
  open redis use {Db, view, rename, set, del, view-rename, view-set, view-del}

  view-set-far : (db : Db) (v : String) → view (set db ks.locked_metadata v) k ≡ view db k
  view-set-far db v = rw (view-set, far.at_locked_metadata) refl

  view-stamp_lock :
      (db : Db) (now : ℕ) → view (stamp_lock redis metadata_json db ks now).1 k ≡ view db k
  unfolding stamp_lock
  view-stamp_lock db now = elim (Entry-cases (view db ks.locked_metadata)) [
    | inl e ↦ rw (e, stamp_lock) refl
    | inr (inr (rows, e)) ↦ rw (e, stamp_lock) refl
    | inr (inl (raw, e)) ↦ elim (Option-cases (metadata_json.decode raw)) [
      | inl d ↦ rw (e, d, stamp_lock) refl
      | inr (m, d) ↦ rw (e, d, stamp_lock) (view-set-far db _)
    ]
  ]

  view-take_rows :
      (db : Db) (now : ℕ) → view (take_rows redis metadata_json db ks now).1 k ≡ view db k
  unfolding take_rows
  view-take_rows db now = elim (Bool-cases (is_present (view db ks.rows))) [
    | inl there ↦
        rw (there, take_rows)
          (view-stamp_lock _ now
            ∙ view-rename db ks.rows ks.locked_rows k there
            ∙ rw (far.at_rows, far.at_locked_rows) refl)
    | inr gone ↦ rw (gone, take_rows) refl
  ]

  view-lock_batch :
      (db : Db) (now interval : ℕ)
      → view (lock_batch redis metadata_json db ks now interval).1 k ≡ view db k
  unfolding lock_batch
  view-lock_batch db now interval = elim (Entry-cases (view db ks.metadata)) [
    | inl e ↦ rw (e, lock_batch) refl
    | inr (inr (rows, e)) ↦ rw (e, lock_batch) refl
    | inr (inl (raw, e)) ↦ elim (Entry-cases (view db ks.locked_metadata)) [
      | inl l ↦
          rw (e, l, lock_batch)
            (view-take_rows _ now
              ∙ view-rename db ks.metadata ks.locked_metadata k (rw e refl)
              ∙ rw (far.at_metadata, far.at_locked_metadata) refl)
      | inr (inl (locked, l)) ↦ rw (e, l, lock_batch) refl
      | inr (inr (rows, l)) ↦ rw (e, l, lock_batch) refl
    ]
  ]

  view-del-far : (db : Db) → view (del (del db ks.locked_metadata) ks.locked_rows) k ≡ view db k
  view-del-far db = rw (view-del, view-del, far.at_locked_rows, far.at_locked_metadata) refl

metadata_key-==-false :
    (q r : String) → q ≢ r → (get_batch_metadata_key q ==ₛ get_batch_metadata_key r) ≡ false
unfolding get_batch_metadata_key
metadata_key-==-false q r h = ==-false _ _ λ e. h (append_cancel_left "batch:metadata:" q r e)

data_key-==-false : (q r : String) → q ≢ r → (get_batch_data_key q ==ₛ get_batch_data_key r) ≡ false
unfolding get_batch_data_key
data_key-==-false q r h = ==-false _ _ λ e. h (append_cancel_left "batch:data:" q r e)

-- The keys of a queue are far from those of another queue.
module _ (q r : String) (h : q ≢ r) where
  pub metadata_key-IsFar : IsFar (keys_of q) (get_batch_metadata_key r)
  unfolding get_batch_data_key get_batch_metadata_key get_lock_key
  metadata_key-IsFar = record {
    at_metadata = metadata_key-==-false q r h;
    at_rows = append-==-false "batch:d" "batch:m" "ata:" "etadata:" q r refl refl;
    at_locked_metadata = append-==-false "l" "b" "ocked:" "atch:metadata:" _ r refl refl;
    at_locked_rows = append-==-false "l" "b" "ocked:" "atch:metadata:" _ r refl refl;
  }

  pub data_key-IsFar : IsFar (keys_of q) (get_batch_data_key r)
  unfolding get_batch_data_key get_batch_metadata_key get_lock_key
  data_key-IsFar = record {
    at_metadata = append-==-false "batch:m" "batch:d" "etadata:" "ata:" q r refl refl;
    at_rows = data_key-==-false q r h;
    at_locked_metadata = append-==-false "l" "b" "ocked:" "atch:data:" _ r refl refl;
    at_locked_rows = append-==-false "l" "b" "ocked:" "atch:data:" _ r refl refl;
  }

  pub lock_metadata_key-IsFar : IsFar (keys_of q) (get_lock_key (get_batch_metadata_key r))
  unfolding get_batch_data_key get_batch_metadata_key get_lock_key
  lock_metadata_key-IsFar = record {
    at_metadata = append-==-false "b" "l" "atch:metadata:" "ocked:" q _ refl refl;
    at_rows = append-==-false "b" "l" "atch:data:" "ocked:" q _ refl refl;
    at_locked_metadata = lock_key-==-false _ _ (metadata_key-==-false q r h);
    at_locked_rows =
        lock_key-==-false _ _ (append-==-false "batch:d" "batch:m" "ata:" "etadata:" q r refl refl);
  }

  pub lock_data_key-IsFar : IsFar (keys_of q) (get_lock_key (get_batch_data_key r))
  unfolding get_batch_data_key get_batch_metadata_key get_lock_key
  lock_data_key-IsFar = record {
    at_metadata = append-==-false "b" "l" "atch:metadata:" "ocked:" q _ refl refl;
    at_rows = append-==-false "b" "l" "atch:data:" "ocked:" q _ refl refl;
    at_locked_metadata =
        lock_key-==-false _ _ (append-==-false "batch:m" "batch:d" "etadata:" "ata:" q r refl refl);
    at_locked_rows = lock_key-==-false _ _ (data_key-==-false q r h);
  }

-- The steps of the batching of a queue keep what is stored at a key that is far from its keys.
module _ (redis : Redis) (scheduler : Scheduler BatchTimeout) (metadata_json : Codec BatchMetadata)
    (row_json : Codec Announcement) (config : BatchConfig) (q batch_id k : String)
    (far : IsFar (keys_of q) k) where
  view-delete_locked :
      (s : BatchState redis scheduler) (deleted : Bool)
      → redis.view
          (delete_locked redis scheduler metadata_json row_json config s q batch_id deleted).db
          k
        ≡ redis.view s.db k
  unfolding delete_locked
  view-delete_locked s true = view-del-far redis metadata_json (keys_of q) k far s.db
  view-delete_locked s false = refl

  pub view-IsKept :
      IsKept redis scheduler metadata_json row_json config q batch_id (λ s. redis.view s.db k)
  view-IsKept = record {
    at_lock =
        λ s now interval. view-lock_batch redis metadata_json (keys_of q) k far s.db now interval;
    at_jobs = λ s jobs. refl;
    at_deletion = view-delete_locked;
  }
