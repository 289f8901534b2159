-- ===== src/Tests/Memories.antt =====
-- The upload loop over a telemetry with a text, a signal frame, and a status that arrives.
use aetus.Base.{none, List, [], ◌∷◌, ◌==◌, if◌then◌else◌, replicate}
use aetus.Types.{
  Metric, string_value, Telemetry, SignalFrame, telemetry, signal_frame, zero_metric,
  zero_telemetry, zero_frame, zero_stats,
}
use aetus.Heap.{Heap, block, bytes, sample_block}
use aetus.Uploader.{Round, State}
use aetus.Tests.Toys.{list_queue, status_of}
use aetus.Tests.Uploads.{answered}

abbrev two_blocks : Heap
two_blocks p =
    if p == 1
    then block 3 (bytes (104 ∷ 105 ∷ 0 ∷ []))
    else if p == 2
    then block 8 (sample_block 4 (1 ∷ 2 ∷ 3 ∷ 4 ∷ []))
    else none

abbrev hi_metric : Metric
hi_metric = record zero_metric { type = string_value; blob_size = 2; value = 1 }

abbrev hi_telemetry : Telemetry
hi_telemetry = record zero_telemetry {
  metric_count = 1;
  inline_metrics = hi_metric ∷ replicate 3 zero_metric;
}

abbrev four_bytes : SignalFrame
four_bytes = record zero_frame { samples = 2; samples_size = 4 }

abbrev owners : State list_queue
owners = record {
  queue = record { depth = 4; items = telemetry hi_telemetry ∷ signal_frame four_bytes 2 ∷ [] };
  sequence = 7;
  stats = zero_stats;
}

abbrev four_answers : List Round
four_answers =
    answered 200 (status_of 3 ∷ []) ∷ answered 200 [] ∷ answered 503 [] ∷ answered 200 [] ∷ []
