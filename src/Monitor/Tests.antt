-- ===== src/Monitor/Tests.antt =====
-- The monitor on a server that is a plain function, and on a chain that cannot find the transaction.
use content_publishing_servi.Common.{some, [], ◌∷◌, true, ◌≡◌, refl, arith}
use content_publishing_servi.Services.Memory.{memory, empty_store}
use content_publishing_servi.Monitor.{
  ReceiptJob, Node, PublishQueue, PublisherJob, push_blocks, block_list, process, remove, add,
}
use content_publishing_servi.Monitor.Window.{range, smaller, block_list-range}
use content_publishing_servi.Monitor.Capacity.{counted, process-counted}
use content_publishing_servi.Monitor.{saved_capacity}

abbrev pub sample_job : PublisherJob
sample_job = record {
  id = "b1";
  schema_id = 2;
  job_data = record { cid = "c"; payload_length = 9 };
}

abbrev node : Node
node = record {
  chain = record {
    get_block_hash = λ n. some "h";
    extrinsic_hashes = λ h. some ("s" ∷ []);
    epoch_at = λ h. some 3;
    events_at = λ h. some [];
  };
  block_number = λ h. some 5;
  latest_finalized_block_number = some 7;
  current_epoch_length = some 100;
}

abbrev queue : PublishQueue
queue = record { can_remove = λ id. true; can_add = λ job. true; can_pause = true }

abbrev job : ReceiptJob
job = record {
  job_data = record {
    id = "t";
    tx_hash = "t";
    last_finalized_block_hash = "h";
    reference_publish_job = sample_job;
  };
  attempts_made = 4;
  attempts = some 4;
}

three_blocks : block_list 5 7 ≡ 5 ∷ 6 ∷ 7 ∷ []
unfolding block_list
three_blocks = refl

republished :
    (process memory queue node empty_store job).calls
    ≡ remove "b1" ∷ add "Retrying publish job - b1" sample_job "b1" ∷ []
unfolding process
republished = refl

block_list-range_example :
    (push_blocks 40 5 100 37 ≡ range 5 (smaller 96 32))
    × (block_list 5 100 ≡ range 5 (smaller 96 32))
block_list-range_example = block_list-range 40 5 100 (omega arith)

process-counted_example :
    counted memory (process memory queue node empty_store job).db 3 ≡ counted memory empty_store 3
process-counted_example = process-counted memory queue node empty_store job 3

nothing_counted : counted memory empty_store 3 ≡ some 0
unfolding saved_capacity
nothing_counted = refl
