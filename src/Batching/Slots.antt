-- ===== src/Batching/Slots.antt =====
-- What the scripts do to the two batches of a queue, the open one and the locked one.
use text.Mathlib.TextPositions.{eq_refl}
use content_publishing_servi.Common.{
  ℕ, ◌+◌, String, ◌≡◌, refl, Option, none, some, List, [], ◌⊎◌, inl, inr, ◌∙◌,
}
use content_publishing_servi.Services.Redis.{Redis, missing, string, hash, ok, fields_of}
use content_publishing_servi.Services.Codec.{Codec}
use content_publishing_servi.Batching.Metadata.{BatchMetadata, BatchKeys, AreApart}
use content_publishing_servi.Batching.Spec.{Batch, spec_add, spec_join}
use content_publishing_servi.Batching.Scripts.{add_row, add_to_open_batch, add_to_batch}

module _ (redis : Redis) (metadata_json : Codec BatchMetadata) where
  open redis use {
    Db, view, set, hsetnx, rename, with_field, view-set, view-hsetnx, view-rename, view-del, del,
  }
  open metadata_json use {encode, decode, decode-encode}

  -- The two keys of a slot hold a batch, or neither is there.
  abbrev pub HoldsBatch : Db → String → String → Option Batch → Type 0
  HoldsBatch db metadata_key rows_key none =
      (view db metadata_key ≡ missing) × (view db rows_key ≡ missing)
  HoldsBatch db metadata_key rows_key (some b) =
      (raw : String) × (view db metadata_key ≡ string raw)
      × (decode raw ≡ some b.metadata)
      × (view db rows_key ≡ hash b.rows)

  pub record Represents (db : Db) (ks : BatchKeys) (open_batch locked_batch : Option Batch)
      : Type 0 where
    pub at_open : HoldsBatch db ks.metadata ks.rows open_batch
    pub at_lock : HoldsBatch db ks.locked_metadata ks.locked_rows locked_batch

  -- Two views of the keys of a slot that agree hold the same batch.
  pub HoldsBatch-same :
      (db db' : Db) (m r : String) (slot : Option Batch)
      → view db' m ≡ view db m
      → view db' r ≡ view db r
      → HoldsBatch db m r slot
      → HoldsBatch db' m r slot
  HoldsBatch-same db db' m r none hm hr (a, b) = (hm ∙ a, hr ∙ b)
  HoldsBatch-same db db' m r (some x) hm hr (raw, a, d, b) = (raw, hm ∙ a, d, hr ∙ b)

  module _ (ks : BatchKeys) (apart : AreApart ks) where
    row_added : Db → String → String → String → Db
    row_added db raw job_id row = hsetnx (set db ks.metadata raw) ks.rows job_id row

    add_row-row_added :
        (db : Db) (raw job_id row : String) (rows : List (String × String)) (count : ℕ)
        → ((view db ks.rows ≡ missing) ⊎ (view db ks.rows ≡ hash rows))
        → add_row redis metadata_json (set db ks.metadata raw) ks.rows job_id row count
          ≡ (ok (some count), row_added db raw job_id row)
    unfolding add_row row_added
    add_row-row_added db raw job_id row rows count (inl e) =
        let same = view-set db ks.metadata raw ks.rows in rw (same, apart.mr, e, add_row)
    add_row-row_added db raw job_id row rows count (inr e) =
        let same = view-set db ks.metadata raw ks.rows in rw (same, apart.mr, e, add_row)

    -- HSETNX after SET of the metadata: the open batch is the new metadata with one row more.
    row_added-Represents :
        (db : Db) (raw job_id row : String) (b : Batch) (locked_batch : Option Batch)
        → decode raw ≡ some b.metadata
        → fields_of (view db ks.rows) ≡ b.rows
        → HoldsBatch db ks.locked_metadata ks.locked_rows locked_batch
        → Represents
            (row_added db raw job_id row)
            ks
            (some (record b { rows = with_field b.rows job_id row }))
            locked_batch
    unfolding row_added
    row_added-Represents db raw job_id row b locked_batch d f l = record {
      at_open = (
        raw,
        simp (view-hsetnx, view-set, apart.rm, eq_refl),
        d,
        simp (view-hsetnx, view-set, apart.mr, eq_refl, f),
      );
      at_lock =
          HoldsBatch-same db (row_added db raw job_id row) ks.locked_metadata ks.locked_rows
            locked_batch (simp (view-hsetnx, view-set, apart.rl, apart.ml))
            (simp (view-hsetnx, view-set, apart.rk, apart.mk)) l;
    }

    add_to_open_batch-spec_join :
        (db : Db) (b : Batch) (locked_batch : Option Batch) (job_id row : String)
        (row_count : Option ℕ)
        → Represents db ks (some b) locked_batch
        → let r = add_to_open_batch redis metadata_json db ks job_id row b.metadata row_count in
          let s = spec_join with_field b job_id row row_count in
          (r.0 ≡ ok s.0) × Represents r.1 ks s.1 locked_batch
    unfolding add_to_open_batch spec_join
    add_to_open_batch-spec_join db b locked_batch job_id row none h = (refl, h)
    add_to_open_batch-spec_join db b locked_batch job_id row (some n) h =
        let m : BatchMetadata = record (b.metadata) { row_count = some (n + 1) } in
        let (raw, at_metadata, decoded, at_rows) = h.at_open in
        rw (add_row-row_added db (encode m) job_id row b.rows (n + 1) (inr at_rows)) (
          refl,
          row_added-Represents db (encode m) job_id row (record { metadata = m; rows = b.rows })
              locked_batch (decode-encode m) (rw at_rows) h.at_lock,
        )

    -- addToBatch.lua does to the two keys what the specification does to the open batch, replies
    -- the specification's row count, and leaves the locked batch alone.
    pub add_to_batch-spec_add :
        (db : Db) (open_batch locked_batch : Option Batch) (m : BatchMetadata) (job_id row : String)
        → Represents db ks open_batch locked_batch
        → let r = add_to_batch redis metadata_json db ks (encode m) job_id row in
          let s = spec_add with_field open_batch m job_id row in
          (r.0 ≡ ok s.0) × Represents r.1 ks s.1 locked_batch
    unfolding add_to_batch spec_add
    add_to_batch-spec_add db none locked_batch m job_id row h =
        let (at_metadata, at_rows) = h.at_open in
        rw
          (at_metadata, add_to_batch, add_row-row_added db (encode m) job_id row [] 1 (inl at_rows))
          (
            refl,
            row_added-Represents db (encode m) job_id row (record { metadata = m; rows = [] })
                locked_batch (decode-encode m) (rw at_rows) h.at_lock,
          )
    add_to_batch-spec_add db (some b) locked_batch m job_id row h =
        let (raw, at_metadata, decoded, at_rows) = h.at_open in
        rw (at_metadata, decoded, add_to_batch)
          (add_to_open_batch-spec_join db b locked_batch job_id row b.metadata.row_count h)
