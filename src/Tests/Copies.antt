-- ===== src/Tests/Copies.antt =====
-- Copies to the queue, their release, and the sample pool, in a small memory.
use aetus.Base.{
  ◌+◌, ◌≡◌, ◌⊎◌, inl, refl, none, some, [], ◌∷◌, ◌++◌, arith, replicate, ◌==◌, if◌then◌else◌,
}
use aetus.Types.{
  Ptr, null, Metric, string_value, zero_metric, Telemetry, zero_telemetry, telemetry, zero_stats,
}
use aetus.Esp.{esp_ok, no_mem}
use aetus.Heap.{
  Heap, done, block, bytes, metrics, raw, sample_header_size, write, malloc, store, load_bytes,
}
use aetus.SignalPool.{reset, alloc, note_alloc, note_release, note_failure}
use aetus.SignalPool.{note_upload_success, reset, copy_stats}
use aetus.SignalPool.Accounts.{Accounts}
use aetus.SignalPool.Runs.{
  Books, Reaches, here, next, allocates, uploads, releases, reset-accounted,
}
use aetus.SignalPool.Blocks.{IsAllocated, fresh_block, alloc_outcome}
use aetus.QueueItem.{
  copy_telemetry_to_queue_item, copy_range, copy_blob, copy_heap_metrics, copy_heap_range,
  release_telemetry,
}
use aetus.QueueItem.Stages.{IsCopyable, copy_blocks}
use aetus.QueueItem.Copy.{blob_blocks}
use aetus.QueueItem.Item.{release-copy_telemetry, copy_telemetry-Serves}
use aetus.QueueItem.Overlay.{Serves}
use aetus.QueueItem.Failure.{copy_telemetry-frees_caller, without_blobs}
use aetus.Enqueue.{enqueue_telemetry_from_isr, has_blob}
use aetus.Enqueue.Isr.{
  enqueue_telemetry_from_isr-owns_nothing, enqueue_telemetry_from_isr-frees_caller,
}
use aetus.Rtos.Bounded.{Bounded}
use aetus.Tests.Toys.{low_memory, no_memory, empty_heap, text_heap, list_queue}

abbrev text_metric : Metric
text_metric = record zero_metric { type = string_value; blob_size = 2; value = 1 }

abbrev one_text : Telemetry
one_text = record zero_telemetry {
  metric_count = 1;
  capacity = 4;
  inline_metrics = text_metric ∷ replicate 3 zero_metric;
}

abbrev text_item : Telemetry
text_item = record one_text {
  inline_metrics = record text_metric { value = 2 } ∷ replicate 3 zero_metric;
}

abbrev copied_heap : Heap
copied_heap = write (write text_heap 2 (block 3 raw)) 2 (block 3 (bytes (104 ∷ 105 ∷ 0 ∷ [])))

one_text-IsCopyable : IsCopyable text_heap one_text []
one_text-IsCopyable = record {
  inline_held = (λ e. (3, 104 ∷ 105 ∷ 0 ∷ [], refl, omega arith), tt);
  inline_tidy = (λ e. refl, tt);
  heap_held = tt;
  heap_tidy = tt;
  placed = inl (refl, omega arith);
}

copies_text :
    copy_telemetry_to_queue_item low_memory one_text text_heap
    ≡ done (esp_ok, text_item) copied_heap
unfolding copy_telemetry_to_queue_item copy_range copy_blob copy_heap_metrics copy_heap_range malloc
    store load_bytes write
copies_text = refl

release-copy_telemetry_example :
    (item' : Telemetry) × (release_telemetry text_item copied_heap ≡ done item' text_heap)
release-copy_telemetry_example =
    release-copy_telemetry low_memory text_heap copied_heap one_text text_item []
      one_text-IsCopyable copies_text

one_text-Serves : Serves low_memory text_heap (copy_blocks text_heap one_text [])
unfolding blob_blocks
one_text-Serves = (λ e. cc, tt)

copy_telemetry-Serves_example :
    (item : Telemetry) × (g : Heap) × (copy_telemetry_to_queue_item low_memory one_text text_heap
      ≡ done (esp_ok, item) g)
copy_telemetry-Serves_example =
    copy_telemetry-Serves low_memory text_heap one_text [] one_text-IsCopyable one_text-Serves

copy_telemetry-frees_caller_example :
    ((item : Telemetry) × (copy_telemetry_to_queue_item no_memory one_text text_heap
        ≡ done (no_mem, item) (without_blobs 1 one_text.inline_metrics text_heap)))
    × (without_blobs 1 one_text.inline_metrics text_heap 1 ≡ none)
copy_telemetry-frees_caller_example =
    copy_telemetry-frees_caller no_memory text_heap one_text text_metric (replicate 3 zero_metric) 0
      refl refl refl refl refl (λ e. (3, bytes (104 ∷ 105 ∷ 0 ∷ []), refl), tt)

abbrev empty_queue : Bounded
empty_queue = record { depth = 2; items = [] }

abbrev array_heap : Heap
array_heap p = if p == 1 then block 2000 (metrics (replicate 28 zero_metric)) else none

abbrev reserved : Telemetry
reserved = record zero_telemetry { metric_count = 1; capacity = 32; heap_metrics = 1 }

abbrev with_one : Telemetry → Bounded
with_one t = record { depth = 2; items = telemetry t ∷ [] }

isr_accepts :
    (t : Telemetry)
    → t.metric_count ≡ 1
    → t.inline_metrics ≡ replicate 4 zero_metric
    → enqueue_telemetry_from_isr list_queue (some empty_queue) (some t)
      ≡ (esp_ok, some (with_one t))
unfolding enqueue_telemetry_from_isr has_blob
isr_accepts t c i = rw (c, i) refl

enqueue_telemetry_from_isr-owns_nothing_example :
    ((with_one (record zero_telemetry { metric_count = 1 })).items
      ≡ [] ++ telemetry (record zero_telemetry { metric_count = 1 }) ∷ [])
    × (release_telemetry (record zero_telemetry { metric_count = 1 }) empty_heap
        ≡ done (record zero_telemetry { metric_count = 1 }) empty_heap)
enqueue_telemetry_from_isr-owns_nothing_example =
    enqueue_telemetry_from_isr-owns_nothing list_queue empty_queue
      (with_one (record zero_telemetry { metric_count = 1 }))
      (record zero_telemetry { metric_count = 1 }) empty_heap refl refl (isr_accepts _ refl refl)

enqueue_telemetry_from_isr-frees_caller_example :
    ((with_one reserved).items ≡ [] ++ telemetry reserved ∷ [])
    × ((t' : Telemetry) × (release_telemetry reserved array_heap
          ≡ done t' (write array_heap 1 none)))
enqueue_telemetry_from_isr-frees_caller_example =
    enqueue_telemetry_from_isr-frees_caller list_queue empty_queue (with_one reserved) reserved
      array_heap 2000 (replicate 28 zero_metric) refl (λ e. absurd (omega arith)) refl (omega arith)
      (isr_accepts reserved refl refl)

alloc_outcome_example :
    (alloc low_memory zero_stats 10 empty_heap
      ≡ done (note_failure zero_stats, null, null) empty_heap)
    ⊎ ((p : Ptr) × IsAllocated empty_heap p 10
        × (alloc low_memory zero_stats 10 empty_heap
            ≡ done
                (note_alloc zero_stats 10, p, p)
                (write empty_heap p (block (sample_header_size + 10) (fresh_block 10)))))
alloc_outcome_example = alloc_outcome low_memory zero_stats 10 empty_heap

abbrev pool_heap : Heap
pool_heap = write (write empty_heap 1 (block 6 raw)) 1 (block 6 (fresh_block 2))

gives_block :
    alloc low_memory zero_stats 2 empty_heap ≡ done (note_alloc zero_stats 2, 1, 1) pool_heap
unfolding alloc malloc store write
gives_block = refl

-- A block of 10 bytes and one of 20 bytes, of which the first is given back, with an upload between.
abbrev two_blocks : Books
two_blocks = record {
  stats = note_release (note_upload_success (note_alloc (note_alloc (reset zero_stats) 10) 20)) 10;
  out = 20 ∷ [];
}

some_run : Reaches (record { stats = reset zero_stats; out = [] }) two_blocks
some_run =
    next
      (next
        (next (next here (allocates 10 (omega arith, omega arith)))
          (allocates 20 (omega arith, omega arith)))
        uploads)
      (releases 10 (20 ∷ []) [] refl)

reset-accounted_example : Accounts (copy_stats zero_stats two_blocks.stats) (20 ∷ [])
reset-accounted_example = reset-accounted zero_stats zero_stats some_run
