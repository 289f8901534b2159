-- ===== src/QueueItem/Failure.antt =====
-- A copy that fails for want of memory frees blobs of the caller: the item still holds the caller's
-- addresses for the metrics that were not copied yet, and its release frees them.
use aetus.Base.{
  ℕ, zero, suc, ◌≡◌, ◌≢◌, refl, inl, inr, true, none, List, [], ◌∷◌, arith, if◌then◌else◌,
  Bool-cases, min,
}
use aetus.Types.{Ptr, null, Metric, Telemetry, inline_metrics_max}
use aetus.Esp.{no_mem}
use aetus.Heap.{Heap, Allocator, Content, done, block, write}
use aetus.Heap.Write.{free-done}
use aetus.Telemetry.{owns_blob}
use aetus.QueueItem.{
  needs_copy, copy_size, copy_range, release_blob, release_range, release_telemetry,
  copy_telemetry_to_queue_item,
}
use aetus.QueueItem.Copy.{copy_heap_metrics-null, copy_blob-full}

-- The heap without the blobs of the first `n` metrics.
unfoldable pub without_blobs : ℕ → List Metric → Heap → Heap
without_blobs zero ms h = h
without_blobs (suc n) [] h = h
without_blobs (suc n) (m ∷ ms) h =
    without_blobs n ms (if owns_blob m then write h m.value none else h)

-- The first `n` metrics own blocks, each its own.
abbrev pub OwnBlobs : ℕ → List Metric → Heap → Type 0
OwnBlobs zero ms h = Unit
OwnBlobs (suc n) [] h = ⊥
OwnBlobs (suc n) (m ∷ ms) h =
    (owns_blob m ≡ true → (k : ℕ) × (c : Content) × (h m.value ≡ block k c))
    × OwnBlobs n ms (if owns_blob m then write h m.value none else h)

owns-ne_null : (m : Metric) → owns_blob m ≡ true → m.value ≢ null
owns-ne_null m e = ground arith

copy_range-full :
    (a : Allocator) (m : Metric) (ms : List Metric) (n : ℕ) (h : Heap)
    → needs_copy m ≡ true
    → a.pick h (copy_size m) ≡ null
    → copy_range a (suc n) (m ∷ ms) h ≡ done (true, m ∷ ms) h
unfolding copy_range
copy_range-full a m ms n h e full = rw (copy_blob-full a m h e full)

release_range-without_blobs :
    (n : ℕ) (ms : List Metric) (h : Heap)
    → OwnBlobs n ms h
    → (rs : List Metric) × (release_range n ms h ≡ done rs (without_blobs n ms h))
unfolding release_range without_blobs release_blob
release_range-without_blobs zero ms h own = (ms, refl)
release_range-without_blobs (suc n) [] h own = absurd own
release_range-without_blobs (suc n) (m ∷ ms) h own = elim (Bool-cases (owns_blob m)) [
  | inl e ↦
      let (k, c, held) = own.0 e in
      let others : OwnBlobs n ms (write h m.value none) = rw e at own.1 in
      let (rs, run) = release_range-without_blobs n ms (write h m.value none) others in
      (
        record m { value = null; blob_size = 0 } ∷ rs,
        rw (e, free-done h m.value (owns-ne_null m e) held, run),
      )
  | inr e ↦
      let others : OwnBlobs n ms h = rw e at own.1 in
      let (rs, run) = release_range-without_blobs n ms h others in (m ∷ rs, rw (e, run))
]

without_blobs-keeps_none :
    (n : ℕ) (ms : List Metric) (h : Heap) (p : Ptr) → h p ≡ none → without_blobs n ms h p ≡ none
unfolding without_blobs
without_blobs-keeps_none zero ms h p e = e
without_blobs-keeps_none (suc n) [] h p e = e
without_blobs-keeps_none (suc n) (m ∷ ms) h p e =
    without_blobs-keeps_none n ms _ p (unfold write in ground arith)

-- When the first blob of a telemetry without a block cannot be copied, the call returns
-- `ESP_ERR_NO_MEM` and every blob of the caller is freed, the first one included, although the
-- caller's telemetry still holds their addresses.
pub copy_telemetry-frees_caller :
    (a : Allocator) (h : Heap) (t : Telemetry) (m : Metric) (ms : List Metric) (n : ℕ)
    → t.heap_metrics ≡ null
    → t.inline_metrics ≡ m ∷ ms
    → min t.metric_count inline_metrics_max ≡ suc n
    → needs_copy m ≡ true
    → a.pick h (copy_size m) ≡ null
    → OwnBlobs (suc n) (m ∷ ms) h
    → ((item : Telemetry) × (copy_telemetry_to_queue_item a t h
          ≡ done (no_mem, item) (without_blobs (suc n) (m ∷ ms) h)))
      × (without_blobs (suc n) (m ∷ ms) h m.value ≡ none)
unfolding copy_telemetry_to_queue_item release_telemetry without_blobs
copy_telemetry-frees_caller a h t m ms n no_block inline count copied out own =
    let (rs, run) = release_range-without_blobs (suc n) (m ∷ ms) h own in
    let owned : owns_blob m ≡ true = ground arith in
    (
      (
        record t { inline_metrics = rs; heap_metrics = null },
        rw (copy_heap_metrics-null a t.heap_metrics h no_block, count, inline)
            (rw (copy_range-full a m ms n h copied out, run)),
      ),
      without_blobs-keeps_none n ms _ m.value (unfold write in ground arith),
    )
