-- ===== src/Batching/Workers/Startup.antt =====
-- The start of all the workers: onApplicationBootstrap of each of them.
use content_publishing_servi.Common.{
  ℕ, ◌+◌, ◌-◌, ◌*◌, String, Option, none, some, false, List, [], ◌∷◌, ◌++◌, ◌≡◌, ◌≢◌, refl, ◌∙◌,
  sym, ap, ◌==ₛ◌, ==-false, leb, ◌<◌, All, arith,
}
use mathlib.Core.Path.{subst}
use mathlib.Core.Option.{none-ne-some}
use content_publishing_servi.Services.Redis.{Redis, string}
use content_publishing_servi.Services.Codec.{Codec}
use content_publishing_servi.Services.Scheduler.{Scheduler}
use content_publishing_servi.Queues.{AnnouncementTypeDto, announcement_to_queue_name}
use content_publishing_servi.Dsnp.{Announcement}
use content_publishing_servi.Batching.{
  BatchTimeout, BatchConfig, Round, done, BatchState, get_timeout_name, add_batch_timeout,
}
use content_publishing_servi.Batching.Setup.{
  setup_active_batch_timeout, setup_entry, setup_open_batch, setup_metadata,
}
use content_publishing_servi.Batching.Metadata.{BatchMetadata, keys_of, get_batch_metadata_key}
use content_publishing_servi.Batching.Spec.{Batch}
use content_publishing_servi.Batching.Slots.{HoldsBatch-same, Represents}
use content_publishing_servi.Batching.Keeping.{setup_active_batch_timeout-kept}
use content_publishing_servi.Batching.Frame.{
  IsFar, view-IsKept, metadata_key-IsFar, data_key-IsFar, lock_metadata_key-IsFar,
  lock_data_key-IsFar,
}
use content_publishing_servi.Batching.Timers.{
  find-add_batch_timeout_ne, find-add_batch_timeout_self, find-IsKept,
}
use content_publishing_servi.Batching.Workers.{worker_of}
use content_publishing_servi.Batching.Workers.Routes.{worker_of-IsAt}
use content_publishing_servi.Batching.Workers.Names.{timeout_name-ne, queue_name-ne}

-- The start of a worker: its type, what its calls of closeBatch meet, and the time
pub record Start : Type 0 where
  pub started : AnnouncementTypeDto
  pub rounds : List Round
  pub now : ℕ

module _ (redis : Redis) (scheduler : Scheduler BatchTimeout) (metadata_json : Codec BatchMetadata)
    (row_json : Codec Announcement) (config : BatchConfig) where
  open redis use {view}
  open scheduler use {find}

  abbrev State : Type 0
  State = BatchState redis scheduler

  abbrev pub begin : Start → State → State
  begin x s =
      ((worker_of redis scheduler metadata_json row_json config x.started).on_application_bootstrap
        x.rounds s x.now).1

  -- The workers start in some order, whether or not a start throws.
  unfoldable pub start_all : List Start → State → State
  unfolding worker_of
  start_all [] s = s
  start_all (x ∷ rest) s = start_all rest (begin x s)

  begin_is_setup :
      (t : AnnouncementTypeDto) (rounds : List Round) (s : State) (now : ℕ)
      → (worker_of redis scheduler metadata_json row_json config t).on_application_bootstrap rounds
          s now
        ≡ setup_active_batch_timeout redis scheduler metadata_json row_json config rounds s
            (announcement_to_queue_name t)
            now
  begin_is_setup t = (worker_of-IsAt redis scheduler metadata_json row_json config t).at_start

  -- The setup of one queue leaves the keys of another as they are.
  view-setup :
      (q k : String)
      → IsFar (keys_of q) k
      → (rounds : List Round) (s : State) (now : ℕ)
      → view
          (setup_active_batch_timeout redis scheduler metadata_json row_json config rounds s q
            now).1.db
          k
        ≡ view s.db k
  unfolding add_batch_timeout
  view-setup q k far =
      setup_active_batch_timeout-kept redis scheduler metadata_json row_json config q
        (λ s. view s.db k)
        (λ batch_id. view-IsKept redis scheduler metadata_json row_json config q batch_id k far)
        (λ batch_id s timeout_ms. refl)

  find-setup :
      (q name : String)
      → ((batch_id : String) → get_timeout_name q batch_id ≢ name)
      → (rounds : List Round) (s : State) (now : ℕ)
      → find
          (setup_active_batch_timeout redis scheduler metadata_json row_json config rounds s q
            now).1.timers
          name
        ≡ find s.timers name
  find-setup q name other =
      setup_active_batch_timeout-kept redis scheduler metadata_json row_json config q
        (λ s. find s.timers name)
        (λ batch_id.
          find-IsKept redis scheduler metadata_json row_json config q batch_id name
            (other batch_id))
        (λ batch_id s timeout_ms.
          find-add_batch_timeout_ne redis scheduler s q batch_id name timeout_ms (other batch_id))

  -- A queue's batches and the timeout of one of them
  module _ (t : AnnouncementTypeDto) (o l : Option Batch) (batch_id : String) where
    pub record Holds (timeout : Option BatchTimeout) (s : State) : Type 0 where
      pub slots : Represents redis metadata_json s.db (keys_of (announcement_to_queue_name t)) o l
      pub timer : find s.timers (get_timeout_name (announcement_to_queue_name t) batch_id) ≡ timeout

    begin-Holds :
        (timeout : Option BatchTimeout) (x : Start) (s : State)
        → x.started ≢ t
        → Holds timeout s
        → Holds timeout (begin x s)
    begin-Holds timeout x s other h =
        let r = announcement_to_queue_name x.started in
        let p = announcement_to_queue_name t in
        let apart : r ≢ p = queue_name-ne x.started t other in
        subst (λ r. Holds timeout r.1) (sym (begin_is_setup x.started x.rounds s x.now))
          (record {
            slots = record {
              at_open =
                  HoldsBatch-same redis metadata_json s.db _ _ _ o
                    (view-setup r _ (metadata_key-IsFar r p apart) x.rounds s x.now)
                    (view-setup r _ (data_key-IsFar r p apart) x.rounds s x.now) h.slots.at_open;
              at_lock =
                  HoldsBatch-same redis metadata_json s.db _ _ _ l
                    (view-setup r _ (lock_metadata_key-IsFar r p apart) x.rounds s x.now)
                    (view-setup r _ (lock_data_key-IsFar r p apart) x.rounds s x.now)
                    h.slots.at_lock;
            };
            timer =
                find-setup r _ (λ b. timeout_name-ne x.started t b batch_id other) x.rounds s x.now
                ∙ h.timer;
          })

    start_all-Holds :
        (timeout : Option BatchTimeout) (xs : List Start) (s : State)
        → All (λ (x : Start). x.started ≢ t) xs
        → Holds timeout s
        → Holds timeout (start_all xs s)
    unfolding start_all
    start_all-Holds timeout [] s others h = h
    start_all-Holds timeout (x ∷ xs) s (other, others) h =
        start_all-Holds timeout xs (begin x s) others (begin-Holds timeout x s other h)

  -- The timeout that a start leaves for a batch that is open at that time
  abbrev pub remaining : AnnouncementTypeDto → Batch → ℕ → BatchTimeout
  remaining t b now = record {
    queue_name = announcement_to_queue_name t;
    batch_id = b.metadata.batch_id;
    timeout_ms = b.metadata.start_timestamp + config.batch_interval_seconds * 1000 - now;
  }

  setup_early :
      (q raw : String) (rounds : List Round) (s : State) (now : ℕ) (m : BatchMetadata)
      → metadata_json.decode "" ≡ none
      → now < m.start_timestamp + config.batch_interval_seconds * 1000
      → view s.db (get_batch_metadata_key q) ≡ string raw
      → metadata_json.decode raw ≡ some m
      → setup_active_batch_timeout redis scheduler metadata_json row_json config rounds s q now ≡ (
        done,
        add_batch_timeout redis scheduler s q m.batch_id
            (m.start_timestamp + config.batch_interval_seconds * 1000 - now),
      )
  unfolding setup_active_batch_timeout
  setup_early q raw rounds s now m blank early at_metadata decoded =
      let full : (raw ==ₛ "") ≡ false =
        ==-false raw ""
          λ e. none-ne-some m (sym blank ∙ ap metadata_json.decode (sym e) ∙ decoded) in
      let not_late : leb (m.start_timestamp + config.batch_interval_seconds * 1000) now ≡ false =
        ground arith in
      rw (at_metadata, setup_entry, full, decoded, setup_metadata, setup_open_batch, not_late) refl

  setup-Holds :
      (t : AnnouncementTypeDto) (rounds : List Round) (s : State) (now : ℕ) (b : Batch)
      (l : Option Batch)
      → metadata_json.decode "" ≡ none
      → now < b.metadata.start_timestamp + config.batch_interval_seconds * 1000
      → Represents redis metadata_json s.db (keys_of (announcement_to_queue_name t)) (some b) l
      → Holds t
          (some b)
          l
          b.metadata.batch_id
          (some (remaining t b now))
          (setup_active_batch_timeout redis scheduler metadata_json row_json config rounds s
            (announcement_to_queue_name t)
            now).1
  unfolding add_batch_timeout
  setup-Holds t rounds s now b l blank early h =
      let q = announcement_to_queue_name t in
      let (raw, at_metadata, decoded, at_rows) = h.at_open in
      subst (λ r. Holds t (some b) l b.metadata.batch_id (some (remaining t b now)) r.1)
        (sym (setup_early q raw rounds s now b.metadata blank early at_metadata decoded))
        (record {
          slots = h;
          timer = find-add_batch_timeout_self redis scheduler s q b.metadata.batch_id _;
        })

  start_all-append :
      (xs ys : List Start) (s : State) → start_all (xs ++ ys) s ≡ start_all ys (start_all xs s)
  unfolding start_all
  start_all-append [] ys s = refl
  start_all-append (x ∷ xs) ys s = start_all-append xs ys (begin x s)

  -- When the workers of different queues have started, in whatever order and whether or not a start
  -- throws, a batch of a queue among them that was open, and within its interval when its worker
  -- started, is still open with the same rows; and a timeout is registered that closes it, which is
  -- to run when the interval is over. JSON.parse is taken to throw on the empty text.
  pub start_all_watches :
      (before after : List Start) (x : Start) (s : State) (b : Batch) (l : Option Batch)
      → All (λ (y : Start). y.started ≢ x.started) before
      → All (λ (y : Start). y.started ≢ x.started) after
      → metadata_json.decode "" ≡ none
      → x.now < b.metadata.start_timestamp + config.batch_interval_seconds * 1000
      → Represents redis metadata_json s.db
          (keys_of (announcement_to_queue_name x.started))
          (some b)
          l
      → Holds x.started
          (some b)
          l
          b.metadata.batch_id
          (some (remaining x.started b x.now))
          (start_all (before ++ x ∷ after) s)
  unfolding start_all
  start_all_watches before after x s b l others later blank early h =
      let u = start_all before s in
      let waiting =
        start_all-Holds x.started (some b) l b.metadata.batch_id _ before s others
          (record { slots = h; timer = refl }) in
      let started = setup-Holds x.started x.rounds u x.now b l blank early waiting.slots in
      rw (start_all-append before (x ∷ after) s) (
        start_all-Holds x.started (some b) l b.metadata.batch_id _ after (begin x u) later (
          subst
            (λ r.
              Holds x.started (some b) l b.metadata.batch_id (some (remaining x.started b x.now))
                r.1)
            (sym (begin_is_setup x.started x.rounds u x.now)) started))
