-- ===== src/Batching/Counting.antt =====
-- The row count in the metadata of a batch against its rows.
use mathlib.Core.List.{Perm}
use mathlib.Core.Path.{subst}
use content_publishing_servi.Common.{
  ℕ, ◌+◌, ◌<◌, ◌≤◌, String, Option, none, some, [], ◌∷◌, true, false, ◌≡◌, refl, Bool-cases, inl,
  inr, ◌∙◌, sym, arith, length, length-perm, ap,
}
use content_publishing_servi.Services.Redis.{Redis, ok, has_field}
use content_publishing_servi.Services.Codec.{Codec}
use content_publishing_servi.Batching.Metadata.{BatchMetadata, keys_of, keys_of-AreApart}
use content_publishing_servi.Batching.{first_metadata}
use content_publishing_servi.Batching.Scripts.{add_to_batch}
use content_publishing_servi.Batching.Spec.{Batch, Rows, spec_add, spec_join}
use content_publishing_servi.Batching.Slots.{Represents, add_to_batch-spec_add}

-- The batch has rows, and its metadata counts at least as many.
abbrev pub IsCounted : Batch → Type 0
IsCounted b = (n : ℕ) × (b.metadata.row_count ≡ some n) × (0 < length b.rows) × (length b.rows ≤ n)

abbrev pub AllCounted : Option Batch → Type 0
AllCounted none = Unit
AllCounted (some b) = IsCounted b

abbrev pub rows_of : Option Batch → Rows
rows_of none = []
rows_of (some b) = b.rows

module _ (redis : Redis) where
  open redis use {with_field, with_field-old, with_field-new}

  length-pos_of_has_field : (rows : Rows) (f : String) → has_field f rows ≡ true → 0 < length rows
  length-pos_of_has_field [] f h = cc
  length-pos_of_has_field (r ∷ rows) f h = omega arith

  length-with_field :
      (rows : Rows) (f v : String)
      → (length rows ≤ length (with_field rows f v))
        × (length (with_field rows f v) ≤ length rows + 1)
        × (0 < length (with_field rows f v))
  length-with_field rows f v = elim (Bool-cases (has_field f rows)) [
    | inl old ↦
        let e = ap length (with_field-old rows f v old) in
        let pos = length-pos_of_has_field rows f old in
        (omega (arith, e), omega (arith, e), omega (arith, e, pos))
    | inr new ↦
        let e = length-perm (with_field-new rows f v new) in
        (omega (arith, e), omega (arith, e), omega (arith, e))
  ]

  -- A row that joins or opens a batch: the count and the rows of the batch after it.
  pub record IsJoined (o : Option Batch) (job_id row : String) (reply : Option ℕ)
      (after : Option Batch) : Type 0 where
    pub batch : Batch
    pub is_open : after ≡ some batch
    pub rows : batch.rows ≡ with_field (rows_of o) job_id row
    pub counted : IsCounted batch
    pub replied : reply ≡ batch.metadata.row_count

  spec_join-IsJoined :
      (b : Batch) (job_id row : String) (n : ℕ)
      → 0 < length b.rows
      → length b.rows ≤ n
      → let r = spec_join with_field b job_id row (some n) in IsJoined (some b) job_id row r.0 r.1
  unfolding spec_join
  spec_join-IsJoined b job_id row n pos le = record {
    batch = _;
    is_open = refl;
    rows = refl;
    counted = (
      n + 1,
      refl,
      (length-with_field b.rows job_id row).2,
      omega (arith, length-with_field b.rows job_id row),
    );
    replied = refl;
  }

  spec_add-IsJoined :
      (o : Option Batch) (m : BatchMetadata) (job_id row : String)
      → m.row_count ≡ some 1
      → AllCounted o
      → let r = spec_add with_field o m job_id row in IsJoined o job_id row r.0 r.1
  unfolding spec_add
  spec_add-IsJoined none m job_id row c h = record {
    batch = _;
    is_open = refl;
    rows = refl;
    counted =
        (1, c, (length-with_field [] job_id row).2, omega (arith, length-with_field [] job_id row));
    replied = sym c;
  }
  spec_add-IsJoined (some b) m job_id row c (n, e, pos, le) =
      subst
        (λ count.
          IsJoined (some b) job_id row (spec_join with_field b job_id row count).0
            (spec_join with_field b job_id row count).1)
        (sym e) (spec_join-IsJoined b job_id row n pos le)

  -- A row that is added to a queue whose open batch, if there is one, counts at least its rows
  -- leaves such a batch open. The reply of addToBatch is the count in its metadata, so it is never
  -- less than the number of rows. Its rows are those of before if the job was among them already,
  -- and otherwise, in some order, those of before and the new one.
  pub add_to_batch_counts :
      (metadata_json : Codec BatchMetadata) (db : redis.Db) (q : String) (o l : Option Batch)
      (batch_id job_id row : String) (now : ℕ)
      → Represents redis metadata_json db (keys_of q) o l
      → AllCounted o
      → let r =
          add_to_batch redis metadata_json db
            (keys_of q)
            (metadata_json.encode (first_metadata batch_id now))
            job_id
            row in
        (b : Batch) × Represents redis metadata_json r.1 (keys_of q) (some b) l
        × IsCounted b
        × (r.0 ≡ ok b.metadata.row_count)
        × (has_field job_id (rows_of o) ≡ true → b.rows ≡ rows_of o)
        × (has_field job_id (rows_of o) ≡ false → Perm b.rows ((job_id, row) ∷ rows_of o))
  add_to_batch_counts metadata_json db q o l batch_id job_id row now h counted =
      let m = first_metadata batch_id now in
      let (replied, shown) =
        add_to_batch-spec_add redis metadata_json (keys_of q) (keys_of-AreApart q) db o l m job_id
          row h in
      let joined = spec_add-IsJoined o m job_id row refl counted in
      (
        joined.batch,
        subst
            (λ after.
              Represents redis metadata_json
                (add_to_batch redis metadata_json db (keys_of q) (metadata_json.encode m) job_id
                  row).1
                (keys_of q) after l)
            joined.is_open shown,
        joined.counted,
        replied ∙ ap ok joined.replied,
        λ old. joined.rows ∙ with_field-old (rows_of o) job_id row old,
        λ new. rw joined.rows (with_field-new (rows_of o) job_id row new),
      )
