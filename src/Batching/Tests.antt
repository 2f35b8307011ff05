-- ===== src/Batching/Tests.antt =====
-- The theorems on jobs and timeouts at a queue with one open batch.
use mathlib.Core.List.{Perm}
use content_publishing_servi.Common.{
  none, some, [], ◌∷◌, true, false, ◌≡◌, ◌≢◌, refl, arith, eq_iff,
}
use content_publishing_servi.Services.Redis.{ok, has_field}
use content_publishing_servi.Services.Memory.{memory, memory_scheduler}
use content_publishing_servi.Batching.{BatchTimeout, done, first_metadata, get_timeout_name}
use content_publishing_servi.Batching.Metadata.{keys_of}
use content_publishing_servi.Batching.Scripts.{add_to_batch}
use content_publishing_servi.Batching.Spec.{Batch}
use content_publishing_servi.Batching.Slots.{Represents}
use content_publishing_servi.Batching.Closing.{QueueState}
use content_publishing_servi.Batching.Closing.Delivery.{Shows}
use content_publishing_servi.Batching.Closing.Conservation.{holdings, delivered}
use content_publishing_servi.Batching.Timers.{process_keeps_timers}
use content_publishing_servi.Batching.Counting.{IsCounted, rows_of, add_to_batch_counts}
use content_publishing_servi.Batching.Instances.{metadata_codec, announcement_codec}
use content_publishing_servi.Queues.{profile, announcement_to_queue_name}
use content_publishing_servi.Batching.Arrival.{process_adds}
use content_publishing_servi.Batching.Closing.Jobs.{IsGrown}
use content_publishing_servi.Batching.Samples.{
  config, first, second, step, after_two, one_job, one_open, good, opened, one_job-Shows,
}

two_rows : (after_two.0 ≡ done) × (delivered after_two.1.jobs ≡ second ∷ first ∷ [])
unfolding opened
two_rows = (refl, refl)

names_differ : get_timeout_name "profileQueue" "b2" ≢ get_timeout_name "profileQueue" "b1"
unfolding opened
names_differ e =
    ground (
      arith,
      e,
      eq_iff (get_timeout_name "profileQueue" "b2") (get_timeout_name "profileQueue" "b1"),
    )

process_keeps_timers_example :
    (step one_job "b" second "b2" 2000).1.timers (get_timeout_name "profileQueue" "b1")
    ≡ one_job.timers (get_timeout_name "profileQueue" "b1")
process_keeps_timers_example =
    process_keeps_timers memory (memory_scheduler BatchTimeout) metadata_codec announcement_codec
      config "profileQueue" "b2" (get_timeout_name "profileQueue" "b1") names_differ
      (good 2000 ∷ []) one_job "b" second 2000

-- The timeout of the batch that the second job closed is still there.
timer_left :
    after_two.1.timers (get_timeout_name "profileQueue" "b1")
    ≡ some (record { queue_name = "profileQueue"; batch_id = "b1"; timeout_ms = 12000 })
unfolding opened
timer_left = refl

add_to_batch_counts_example :
    (b : Batch) × Represents memory metadata_codec
      (add_to_batch memory metadata_codec one_job.db
        (keys_of "profileQueue")
        (metadata_codec.encode (first_metadata "b2" 2000))
        "b"
        "row").1
      (keys_of "profileQueue")
      (some b)
      none
    × IsCounted b
    × ((add_to_batch memory metadata_codec one_job.db
          (keys_of "profileQueue")
          (metadata_codec.encode (first_metadata "b2" 2000))
          "b"
          "row").0
        ≡ ok b.metadata.row_count)
    × (has_field "b" (rows_of one_open.open_batch) ≡ true → b.rows ≡ rows_of one_open.open_batch)
    × (has_field "b" (rows_of one_open.open_batch) ≡ false
        → Perm b.rows (("b", "row") ∷ rows_of one_open.open_batch))
add_to_batch_counts_example =
    add_to_batch_counts memory metadata_codec one_job.db "profileQueue" one_open.open_batch none
      "b2" "b" "row" 2000 one_job-Shows.slots (1, refl, omega arith, omega arith)

process_adds_example :
    (u : QueueState) × Shows memory
      (memory_scheduler BatchTimeout)
      metadata_codec
      announcement_codec
      config
      "profileQueue"
      (step one_job "b" second "b2" 2000).1
      u
    × Perm
        (holdings announcement_codec config "profileQueue" u)
        (second ∷ holdings announcement_codec config "profileQueue" one_open)
    × IsGrown announcement_codec config profile [] u.jobs
unfolding announcement_to_queue_name
process_adds_example =
    process_adds memory (memory_scheduler BatchTimeout) metadata_codec announcement_codec config
      profile "b2" (good 2000 ∷ []) one_job one_open "b" second 2000 (refl, tt)
      (1, refl, omega arith, omega arith) refl one_job-Shows
