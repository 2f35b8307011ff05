-- ===== src/Batching/Scripts.antt =====
-- lua/addToBatch.lua and lua/lockBatch.lua, run by the Redis server as one step each.
use content_publishing_servi.Common.{
  ℕ, ◌+◌, String, Option, none, some, List, [], true, false, ltb, if◌then◌else◌,
}
use content_publishing_servi.Services.Redis.{
  Redis, Entry, missing, string, hash, is_present, Reply, ok, raised, wrong_type, no_such_key,
  bad_json, nil_arithmetic,
}
use content_publishing_servi.Services.Codec.{Codec}
use content_publishing_servi.Batching.Metadata.{BatchMetadata, BatchKeys}

-- The replies {0}, {-2}, {-1, rows, metadata} and {1, rows, metadata} of lockBatch.lua.
pub data LockReply : Type 0 where
  no_batch : LockReply
  still_locked : LockReply
  leftover : List (String × String) → String → LockReply
  locked : List (String × String) → String → LockReply

-- HGETALL
abbrev pub hgetall : Entry → Reply (List (String × String))
hgetall (string v) = raised wrong_type
hgetall missing = ok []
hgetall (hash rows) = ok rows

abbrev pub with_rows :
    Reply (List (String × String)) → (List (String × String) → LockReply) → Reply LockReply
with_rows (ok rows) k = ok (k rows)
with_rows (raised e) k = raised e

module _ (redis : Redis) (metadata_json : Codec BatchMetadata) where
  open redis use {Db, view, set, hsetnx, rename}
  open metadata_json use {encode, decode}

  -- rcall("HSETNX", batchDataKey, newJobId, newData), and then the reply of the script
  unfoldable pub add_row : Db → String → String → String → ℕ → Reply (Option ℕ) × Db
  add_row db batch_data_key new_job_id new_data current_count = elim (view db batch_data_key) [
    | string v ↦ (raised wrong_type, db)
    | missing ↦ (ok (some current_count), hsetnx db batch_data_key new_job_id new_data)
    | hash rows ↦ (ok (some current_count), hsetnx db batch_data_key new_job_id new_data)
  ]

  -- The branch of addToBatch.lua where the queue has metadata, once that is decoded.
  unfoldable pub add_to_open_batch :
      Db → BatchKeys → String → String → BatchMetadata → Option ℕ → Reply (Option ℕ) × Db
  unfolding add_row
  add_to_open_batch db ks new_job_id new_data metadata none = (ok none, db)
  add_to_open_batch db ks new_job_id new_data metadata (some row_count) =
      let current_count = row_count + 1 in
      add_row (set db ks.metadata (encode (record metadata { row_count = some current_count })))
        ks.rows new_job_id new_data current_count

  -- addToBatch.lua; the reply -1 is none
  unfoldable pub add_to_batch : Db → BatchKeys → String → String → String → Reply (Option ℕ) × Db
  unfolding add_row add_to_open_batch
  add_to_batch db ks new_metadata new_job_id new_data = elim (view db ks.metadata) [
    | hash rows ↦ (raised wrong_type, db)
    | missing ↦ add_row (set db ks.metadata new_metadata) ks.rows new_job_id new_data 1
    | string raw_metadata ↦ elim (decode raw_metadata) [
      | none ↦ (raised bad_json, db)
      | some metadata ↦ add_to_open_batch db ks new_job_id new_data metadata metadata.row_count
    ]
  ]

  -- The branch of lockBatch.lua where a batch is locked already: timePassed > timestampInterval.
  unfoldable pub lock_over : Db → BatchKeys → ℕ → ℕ → String → Reply LockReply
  lock_over db ks current_timestamp timestamp_interval raw_previous_metadata =
      elim (decode raw_previous_metadata) [
        | none ↦ raised bad_json
        | some previous_metadata ↦ elim previous_metadata.lock_timestamp [
          | none ↦ raised nil_arithmetic
          | some lock_timestamp ↦
              if ltb (lock_timestamp + timestamp_interval) current_timestamp
              then with_rows (hgetall (view db ks.locked_rows))
                  (λ rows. leftover rows raw_previous_metadata)
              else ok still_locked
        ]
      ]

  -- After the two renames of lockBatch.lua: the lock's time is written into the metadata.
  unfoldable pub stamp_lock : Db → BatchKeys → ℕ → Reply LockReply × Db
  stamp_lock db ks current_timestamp = elim (view db ks.locked_metadata) [
    | missing ↦ (raised bad_json, db)
    | hash rows ↦ (raised wrong_type, db)
    | string raw ↦ elim (decode raw) [
      | none ↦ (raised bad_json, db)
      | some metadata ↦
          let encoded_metadata =
            encode (record metadata { lock_timestamp = some current_timestamp }) in
          let db' = set db ks.locked_metadata encoded_metadata in
          (
            with_rows (hgetall (view db' ks.locked_rows)) (λ rows. locked rows encoded_metadata),
            db',
          )
    ]
  ]

  -- RENAME of the rows' key, an error if there is no such key; the metadata is renamed by then.
  unfoldable pub take_rows : Db → BatchKeys → ℕ → Reply LockReply × Db
  unfolding stamp_lock
  take_rows db ks current_timestamp = elim (is_present (view db ks.rows)) [
    | false ↦ (raised no_such_key, db)
    | true ↦ stamp_lock (rename db ks.rows ks.locked_rows) ks current_timestamp
  ]

  -- lockBatch.lua
  unfoldable pub lock_batch : Db → BatchKeys → ℕ → ℕ → Reply LockReply × Db
  unfolding lock_over take_rows
  lock_batch db ks current_timestamp timestamp_interval = elim (view db ks.metadata) [
    | missing ↦ (ok no_batch, db)
    | hash rows ↦ (raised wrong_type, db)
    | string metadata ↦ elim (view db ks.locked_metadata) [
      | string raw ↦ (lock_over db ks current_timestamp timestamp_interval raw, db)
      | hash rows ↦ (raised wrong_type, db)
      | missing ↦ take_rows (rename db ks.metadata ks.locked_metadata) ks current_timestamp
    ]
  ]
