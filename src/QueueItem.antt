-- ===== src/QueueItem.antt =====
-- firmware/esp32-aetus/components/aetus/aetus_queue_item.c: the deep copy of a telemetry that the
-- queue owns, and its release. The counters of the test build are left out. The copy loop over all
-- metrics is a walk of the inline array and then of the block; an array that it fills in is stored
-- at the end of its walk. Neither pointer is `NULL` where the firmware calls these functions.
pub mod Overlay
pub mod Copy
pub mod Release
pub mod Failure
pub mod Stages
pub mod Item
use aetus.Base.{
  ℕ, zero, suc, ◌+◌, ◌*◌, ◌%◌, min, Bool, true, false, not, ◌&&◌, List, [], ◌∷◌, ltb, ◌==◌,
  if◌then◌else◌,
}
use aetus.Types.{
  Ptr, null, Metric, MetricType, string_value, bytes_value, Telemetry, QueueItem, telemetry,
  inline_metrics_max, u32_mod,
}
use aetus.Esp.{EspErr, esp_ok, no_mem}
use aetus.Heap.{
  Allocator, M, pure, failed, ◌>>=◌, ◌>>◌, malloc, free, store, load_bytes, load_metrics,
  load_array, metrics, bytes, metric_size,
}
use aetus.Telemetry.{owns_blob, heap_slots, heap_count}

-- One round of the release loops: a blob is freed and its metric loses it.
unfoldable pub release_blob : Metric → M Metric
release_blob m =
    if owns_blob m
    then (do free m.value; pure (record m { value = null; blob_size = 0 }))
    else pure m

-- The release loop over the first `n` metrics of an array.
unfoldable pub release_range : ℕ → List Metric → M (List Metric)
unfolding release_blob
release_range zero ms = pure ms
release_range (suc n) [] = failed
release_range (suc n) (m ∷ ms) = do m' ← release_blob m; ms' ← release_range n ms; pure (m' ∷ ms')

unfoldable pub release_telemetry : Telemetry → M Telemetry
release_telemetry t = do
  inline ← release_range (min t.metric_count inline_metrics_max) t.inline_metrics
  let t' = record t { inline_metrics = inline }
  if t.heap_metrics == null then pure t' else do
    ms ← load_metrics t.heap_metrics
    ms' ← release_range (heap_count t.metric_count) ms
    store t.heap_metrics (metrics ms')
    free t.heap_metrics
    pure (record t' { heap_metrics = null })

unfoldable pub release_telemetry_queue_item : QueueItem → M QueueItem
unfolding release_telemetry
release_telemetry_queue_item (telemetry t) = do t' ← release_telemetry t; pure (telemetry t')
release_telemetry_queue_item item = pure item

-- A string is copied if it has a buffer, bytes only if they are not empty too.
abbrev pub is_copied : MetricType → ℕ → Bool
is_copied string_value blob_size = true
is_copied bytes_value blob_size = ltb 0 blob_size
is_copied _ blob_size = false

abbrev pub needs_copy : Metric → Bool
needs_copy m = is_copied m.type m.blob_size && not (m.value == null)

-- A string is copied with its terminator.
abbrev pub copied_bytes : MetricType → ℕ → ℕ
copied_bytes string_value blob_size = (blob_size + 1) % u32_mod
copied_bytes _ blob_size = blob_size

abbrev pub copy_size : Metric → ℕ
copy_size m = copied_bytes m.type m.blob_size

-- One round of the copy loop: whether the allocation failed, and the metric of the item.
unfoldable pub copy_blob : Allocator → Metric → M (Bool × Metric)
copy_blob a m =
    if needs_copy m
    then (do
      p ← malloc a (copy_size m)
      if p == null then pure (true, m) else do
        bs ← load_bytes m.value (copy_size m)
        store p (bytes bs)
        pure (false, record m { value = p }))
    else pure (false, m)

-- The copy loop over the first `n` metrics of an array, up to a failure.
unfoldable pub copy_range : Allocator → ℕ → List Metric → M (Bool × List Metric)
unfolding copy_blob
copy_range a zero ms = pure (false, ms)
copy_range a (suc n) [] = failed
copy_range a (suc n) (m ∷ ms) = do
  (alloc_failed, m') ← copy_blob a m
  if alloc_failed
      then pure (true, m' ∷ ms)
      else do (alloc_failed', ms') ← copy_range a n ms; pure (alloc_failed', m' ∷ ms')

-- `heap_metrics` of the item: a block of its own with what the caller's holds.
unfoldable pub copy_heap_metrics : Allocator → Ptr → M (Bool × Ptr)
copy_heap_metrics a source = if source == null then pure (false, null) else do
  p ← malloc a (heap_slots * metric_size)
  if p == null then pure (true, null) else (do
    ms ← load_array source (heap_slots * metric_size)
    store p (metrics ms)
    pure (false, p))

-- The metrics beyond the fourth, read from the caller's block and written to the item's.
unfoldable pub copy_heap_range : Allocator → ℕ → (source target : Ptr) → M Bool
copy_heap_range a zero source target = pure false
copy_heap_range a (suc n) source target = do
  ms ← load_metrics source
  (alloc_failed, ms') ← copy_range a (suc n) ms
  store target (metrics ms')
  pure alloc_failed

-- The error code, and the telemetry of the item.
unfoldable pub copy_telemetry_to_queue_item : Allocator → Telemetry → M (EspErr × Telemetry)
copy_telemetry_to_queue_item a t = do
  (no_block, heap) ← copy_heap_metrics a t.heap_metrics
  let item = record t { heap_metrics = heap }
  if no_block then pure (no_mem, item) else do
    (failed_inline, inline) ← copy_range a (min t.metric_count inline_metrics_max) t.inline_metrics
    let item' = record item { inline_metrics = inline }
    alloc_failed ←
        (if failed_inline
          then pure true
          else copy_heap_range a (heap_count t.metric_count) t.heap_metrics heap)
    if alloc_failed
        then (do item'' ← release_telemetry item'; pure (no_mem, item''))
        else pure (esp_ok, item')
