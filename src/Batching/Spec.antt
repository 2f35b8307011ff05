-- ===== src/Batching/Spec.antt =====
-- The batches of one queue without Redis: at most one that is open and one that is locked.
use content_publishing_servi.Common.{
  ℕ, ◌+◌, String, Option, none, some, List, [], ltb, if◌then◌else◌,
}
use content_publishing_servi.Services.Redis.{RedisError, nil_arithmetic}
use content_publishing_servi.Batching.Metadata.{BatchMetadata}

pub record Batch : Type 0 where
  pub metadata : BatchMetadata
  pub rows : List (String × String)

abbrev pub Rows : Type 0
Rows = List (String × String)

-- A row joins the batch that is open, at the count that its metadata has, if it has one.
unfoldable pub spec_join :
    (Rows → String → String → Rows) → Batch → String → String → Option ℕ → Option ℕ × Option Batch
spec_join with_field b job_id row none = (none, some b)
spec_join with_field b job_id row (some n) = (
  some (n + 1),
  some (record {
    metadata = record (b.metadata) { row_count = some (n + 1) };
    rows = with_field b.rows job_id row;
  }),
)

-- A row joins the batch that is open, or opens one.
unfoldable pub spec_add :
    (Rows → String → String → Rows)
    → Option Batch
    → BatchMetadata
    → String
    → String
    → Option ℕ × Option Batch
unfolding spec_join
spec_add with_field none m job_id row =
    (some 1, some (record { metadata = m; rows = with_field [] job_id row }))
spec_add with_field (some b) m job_id row = spec_join with_field b job_id row b.metadata.row_count

pub data LockView : Type 0 where
  nothing_open still_locked : LockView
  leftover : Batch → LockView
  locked : Batch → LockView
  refused : RedisError → LockView

pub record Slots : Type 0 where
  pub open_batch : Option Batch
  pub locked_batch : Option Batch

abbrev pub stamp : Batch → ℕ → Batch
stamp b now = record b { metadata = record (b.metadata) { lock_timestamp = some now } }

-- A locked batch is handed out again once it has been locked for longer than the interval.
unfoldable pub spec_lock_over : Batch → Option ℕ → ℕ → ℕ → LockView
spec_lock_over l none now interval = refused nil_arithmetic
spec_lock_over l (some lock_timestamp) now interval =
    if ltb (lock_timestamp + interval) now then leftover l else still_locked

-- The open batch becomes the locked one, unless there is a locked one.
unfoldable pub spec_lock : Option Batch → Option Batch → ℕ → ℕ → LockView × Slots
unfolding spec_lock_over
spec_lock none l now interval = (nothing_open, record { open_batch = none; locked_batch = l })
spec_lock (some b) none now interval =
    (locked (stamp b now), record { open_batch = none; locked_batch = some (stamp b now) })
spec_lock (some b) (some l) now interval = (
  spec_lock_over l l.metadata.lock_timestamp now interval,
  record { open_batch = some b; locked_batch = some l },
)
