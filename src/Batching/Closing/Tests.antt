-- ===== src/Batching/Closing/Tests.antt =====
-- The theorems on closing at a queue with a locked batch and an open one.
use content_publishing_servi.Common.{none, some, List, [], ◌∷◌, ◌≡◌, ◌≢◌, refl, arith}
use content_publishing_servi.Services.Memory.{memory, memory_scheduler}
use content_publishing_servi.Batching.{
  BatchAnnouncerJob, BatchTimeout, done, out_of_rounds, close_batch,
}
use content_publishing_servi.Batching.Closing.{QueueState, spec_close}
use content_publishing_servi.Batching.Closing.Delivery.{Shows, close_batch-spec_close}
use content_publishing_servi.Batching.Closing.Conservation.{
  holdings, delivered, close_batch_conserves,
}
use content_publishing_servi.Batching.Closing.Unread.{unread}
use content_publishing_servi.Batching.Closing.Rounds.{
  closing, close_batch_returns, close_batch_complete, close_batch_stuck,
}
use content_publishing_servi.Batching.Instances.{metadata_codec, announcement_codec}
use content_publishing_servi.Batching.Samples.{
  config, first, second, batch_of, two_batches, left_over, one_of_each, good, undeleted,
  two_batches-Shows, first_read, second_read,
}

close_batch-spec_close_example :
    ((close_batch memory
        (memory_scheduler BatchTimeout)
        metadata_codec
        announcement_codec
        config
        (good 9000 ∷ good 9001 ∷ [])
        two_batches
        "profileQueue"
        "b1").0
      ≡ (spec_close announcement_codec config "profileQueue"
          (good 9000 ∷ good 9001 ∷ [])
          one_of_each).0)
    × Shows memory
        (memory_scheduler BatchTimeout)
        metadata_codec
        announcement_codec
        config
        "profileQueue"
        (close_batch memory
          (memory_scheduler BatchTimeout)
          metadata_codec
          announcement_codec
          config
          (good 9000 ∷ good 9001 ∷ [])
          two_batches
          "profileQueue"
          "b1").1
        (spec_close announcement_codec config "profileQueue"
          (good 9000 ∷ good 9001 ∷ [])
          one_of_each).1
close_batch-spec_close_example =
    close_batch-spec_close memory (memory_scheduler BatchTimeout) metadata_codec announcement_codec
      config "profileQueue" (good 9000 ∷ good 9001 ∷ []) two_batches one_of_each "b1"
      two_batches-Shows

close_batch_conserves_example :
    (u : QueueState) × Shows memory
      (memory_scheduler BatchTimeout)
      metadata_codec
      announcement_codec
      config
      "profileQueue"
      (close_batch memory
        (memory_scheduler BatchTimeout)
        metadata_codec
        announcement_codec
        config
        (good 9000 ∷ good 9001 ∷ [])
        two_batches
        "profileQueue"
        "b1").1
      u
    × (holdings announcement_codec config "profileQueue" u
        ≡ holdings announcement_codec config "profileQueue" one_of_each)
    × (unread announcement_codec config "profileQueue" u
        ≡ unread announcement_codec config "profileQueue" one_of_each)
close_batch_conserves_example =
    close_batch_conserves memory (memory_scheduler BatchTimeout) metadata_codec announcement_codec
      config "profileQueue" (good 9000 ∷ good 9001 ∷ []) two_batches one_of_each "b1"
      (refl, (refl, tt)) two_batches-Shows

close_batch_returns_example :
    (closing memory
      (memory_scheduler BatchTimeout)
      metadata_codec
      announcement_codec
      config
      "profileQueue"
      (good 9000 ∷ good 9001 ∷ [])
      two_batches
      "b1").0
    ≢ out_of_rounds
close_batch_returns_example =
    close_batch_returns memory (memory_scheduler BatchTimeout) metadata_codec announcement_codec
      config "profileQueue" (good 9000) (good 9001) [] two_batches one_of_each "b1" refl
      two_batches-Shows

close_batch_complete_example :
    ((closing memory
        (memory_scheduler BatchTimeout)
        metadata_codec
        announcement_codec
        config
        "profileQueue"
        (good 9000 ∷ good 9001 ∷ [])
        two_batches
        "b1").0
      ≡ done)
    × ((jobs : List BatchAnnouncerJob) × Shows memory
          (memory_scheduler BatchTimeout)
          metadata_codec
          announcement_codec
          config
          "profileQueue"
          (closing memory
            (memory_scheduler BatchTimeout)
            metadata_codec
            announcement_codec
            config
            "profileQueue"
            (good 9000 ∷ good 9001 ∷ [])
            two_batches
            "b1").1
          (record { open_batch = none; locked_batch = none; jobs = jobs })
        × (delivered jobs ≡ holdings announcement_codec config "profileQueue" one_of_each))
close_batch_complete_example =
    close_batch_complete memory (memory_scheduler BatchTimeout) metadata_codec announcement_codec
      config "profileQueue" (good 9000) (good 9001) two_batches (batch_of "b2" 3000 "b" second)
      (some left_over) [] "b1" (refl, refl) (refl, refl) (second ∷ [], second_read)
      ((first ∷ [], first_read), (2000, refl, omega arith)) two_batches-Shows

close_batch_stuck_example :
    (closing memory
      (memory_scheduler BatchTimeout)
      metadata_codec
      announcement_codec
      config
      "profileQueue"
      (undeleted 9000 ∷ undeleted 9001 ∷ undeleted 9002 ∷ [])
      two_batches
      "b1").0
    ≡ out_of_rounds
close_batch_stuck_example =
    close_batch_stuck memory (memory_scheduler BatchTimeout) metadata_codec announcement_codec
      config "profileQueue" (undeleted 9000 ∷ undeleted 9001 ∷ undeleted 9002 ∷ []) two_batches
      (batch_of "b2" 3000 "b" second) left_over [] 2000 "b1" (first ∷ [], first_read) refl
      ((refl, refl, omega arith), ((refl, refl, omega arith), ((refl, refl, omega arith), tt)))
      two_batches-Shows
