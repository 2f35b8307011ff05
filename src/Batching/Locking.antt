-- ===== src/Batching/Locking.antt =====
-- lockBatch.lua against the specification of the two batches.
use text.Mathlib.TextPositions.{eq_refl}
use content_publishing_servi.Common.{
  ℕ, ◌+◌, String, ◌≡◌, refl, Option, none, some, ltb, Bool-cases, inl, inr, arith, ◌∙◌,
  if◌then◌else◌, ◌==ₛ◌,
}
use content_publishing_servi.Services.Redis.{Redis, missing, string, hash, Reply, ok, raised}
use content_publishing_servi.Services.Codec.{Codec}
use content_publishing_servi.Batching.Metadata.{BatchMetadata, BatchKeys, AreApart}
use content_publishing_servi.Batching.Spec.{
  Batch, LockView, nothing_open, refused, stamp, spec_lock, spec_lock_over,
}
use content_publishing_servi.Batching.Scripts.{
  LockReply, no_batch, still_locked, leftover, locked, lock_over, stamp_lock, take_rows, lock_batch,
}
use content_publishing_servi.Batching.Slots.{Represents}

module _ (redis : Redis) (metadata_json : Codec BatchMetadata) where
  open redis use {Db, view, set, rename, view-set, view-rename}
  open metadata_json use {encode, decode, decode-encode}

  -- What the script replies where the specification hands out a batch: its rows, and a text that
  -- decodes to its metadata.
  abbrev pub Answers : Reply LockReply → LockView → Type 0
  Answers r nothing_open = r ≡ ok no_batch
  Answers r LockView.still_locked = r ≡ ok still_locked
  Answers r (LockView.leftover b) =
      (raw : String) × (r ≡ ok (leftover b.rows raw)) × (decode raw ≡ some b.metadata)
  Answers r (LockView.locked b) =
      (raw : String) × (r ≡ ok (locked b.rows raw)) × (decode raw ≡ some b.metadata)
  Answers r (refused e) = r ≡ raised e

  module _ (ks : BatchKeys) (apart : AreApart ks) (now : ℕ) where
    -- The server after the two renames and after the lock's time is written.
    module _ (db : Db) (b : Batch) (raw : String) (at_metadata : view db ks.metadata ≡ string raw)
        (decoded : decode raw ≡ some b.metadata) (at_rows : view db ks.rows ≡ hash b.rows) where
      abbrev moved_metadata : Db
      moved_metadata = rename db ks.metadata ks.locked_metadata

      abbrev moved_rows : Db
      moved_rows = rename moved_metadata ks.rows ks.locked_rows

      abbrev stamped : Db
      stamped = set moved_rows ks.locked_metadata (encode (stamp b now).metadata)

      view-moved_metadata :
          (j : String)
          → view moved_metadata j ≡ (
              if ks.locked_metadata ==ₛ j
              then string raw
              else if ks.metadata ==ₛ j
              then missing
              else view db j)
      view-moved_metadata j =
          view-rename db ks.metadata ks.locked_metadata j (rw at_metadata) ∙ rw at_metadata

      moved_metadata-rows : view moved_metadata ks.rows ≡ hash b.rows
      moved_metadata-rows = simp (view-moved_metadata, apart.lr, apart.mr, at_rows)

      view-moved_rows :
          (j : String)
          → view moved_rows j ≡ (
              if ks.locked_rows ==ₛ j
              then hash b.rows
              else if ks.rows ==ₛ j
              then missing
              else view moved_metadata j)
      view-moved_rows j =
          view-rename moved_metadata ks.rows ks.locked_rows j (rw moved_metadata-rows)
          ∙ rw moved_metadata-rows

      moved_rows-locked_metadata : view moved_rows ks.locked_metadata ≡ string raw
      moved_rows-locked_metadata =
          simp (view-moved_rows, apart.kl, apart.rl, view-moved_metadata, eq_refl)

      stamped-locked_rows : view stamped ks.locked_rows ≡ hash b.rows
      stamped-locked_rows = simp (view-set, apart.lk, view-moved_rows, eq_refl)

      stamped-Represents : Represents redis metadata_json stamped ks none (some (stamp b now))
      stamped-Represents = record {
        at_open = (
          simp (
            view-set, apart.lm, view-moved_rows, apart.km, apart.rm, view-moved_metadata, eq_refl,
          ),
          simp (view-set, apart.lr, view-moved_rows, apart.kr, eq_refl),
        );
        at_lock = (
          encode (stamp b now).metadata,
          simp (view-set, eq_refl),
          decode-encode _,
          stamped-locked_rows,
        );
      }

      take_rows-stamped :
          take_rows redis metadata_json moved_metadata ks now
          ≡ (ok (locked b.rows (encode (stamp b now).metadata)), stamped)
      unfolding take_rows stamp_lock
      take_rows-stamped =
          rw (moved_metadata-rows, take_rows)
            (rw (moved_rows-locked_metadata, decoded, stamp_lock) (rw stamped-locked_rows))

    module _ (interval : ℕ) where
      lock_over-spec_lock_over :
          (db : Db) (l : Batch) (raw : String) (lock_timestamp : Option ℕ)
          → decode raw ≡ some l.metadata
          → view db ks.locked_rows ≡ hash l.rows
          → l.metadata.lock_timestamp ≡ lock_timestamp
          → Answers
              (lock_over redis metadata_json db ks now interval raw)
              (spec_lock_over l lock_timestamp now interval)
      unfolding lock_over spec_lock_over
      lock_over-spec_lock_over db l raw none d r t = rw (d, lock_over) (rw t)
      lock_over-spec_lock_over db l raw (some since) d r t =
          elim (Bool-cases (ltb (since + interval) now)) [
            | inl e ↦ rw e (raw, ground (arith, d, r, t, e), d)
            | inr e ↦ rw e (ground (arith, d, r, t, e))
          ]

      -- lockBatch.lua does to the four keys what the specification does to the two batches, and
      -- answers what the specification answers.
      pub lock_batch-spec_lock :
          (db : Db) (open_batch locked_batch : Option Batch)
          → Represents redis metadata_json db ks open_batch locked_batch
          → let r = lock_batch redis metadata_json db ks now interval in
            let s = spec_lock open_batch locked_batch now interval in
            Answers r.0 s.0 × Represents redis metadata_json r.1 ks s.1.open_batch s.1.locked_batch
      unfolding lock_batch spec_lock
      lock_batch-spec_lock db none l h =
          let (at_metadata, at_rows) = h.at_open in rw (at_metadata, lock_batch) (refl, h)
      lock_batch-spec_lock db (some b) none h =
          let (raw, at_metadata, decoded, at_rows) = h.at_open in
          rw
            (
              at_metadata,
              h.at_lock.0,
              take_rows-stamped db b raw at_metadata decoded at_rows,
              lock_batch,
            )
            (
              (encode (stamp b now).metadata, refl, decode-encode _),
              stamped-Represents db b raw at_metadata decoded at_rows,
            )
      lock_batch-spec_lock db (some b) (some l) h =
          let (raw, at_metadata, decoded, at_rows) = h.at_open in
          let (raw_l, at_metadata_l, decoded_l, at_rows_l) = h.at_lock in
          rw (at_metadata, at_metadata_l, lock_batch)
            (
              lock_over-spec_lock_over db l raw_l l.metadata.lock_timestamp decoded_l at_rows_l
                  refl,
              h,
            )
