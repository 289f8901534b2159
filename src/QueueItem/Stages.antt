-- ===== src/QueueItem/Stages.antt =====
-- The stages of the deep copy of a telemetry: what each leaves in memory and in the item.
use aetus.Base.{
  ℕ, zero, suc, ◌*◌, ◌≤◌, ◌≡◌, ◌≢◌, ◌⊎◌, refl, sym, ap, ◌∙◌, inl, inr, subst, ◌==◌, ◌∷◌, ◌++◌,
  if◌then◌else◌, Bool, true, false, List, [], arith, Bool-cases, length, min, ne-==, some-none,
}
use mathlib.Core.List.{append-nil}
use aetus.Types.{Ptr, null, Metric, Telemetry, inline_metrics_max}
use aetus.Esp.{EspErr, esp_ok, no_mem}
use aetus.Heap.{
  Heap, Block, Allocator, Run, done, fault, and_then, block, write, metrics, raw, metric_size,
  content_size,
}
use aetus.Heap.Write.{
  malloc-null, malloc-block, store-new, store-done, load_metrics-done, load_array-done, write_ne,
  write_id,
}
use aetus.Telemetry.{heap_count, heap_slots}
use aetus.QueueItem.{
  release_telemetry, copy_heap_metrics, copy_heap_range, copy_telemetry_to_queue_item,
}
use aetus.QueueItem.Overlay.{Serves, Cells, overlay, Fresh, Agrees, overlay-out, Fresh-NotIn}
use aetus.QueueItem.Copy.{
  copy_heap_metrics-null, CanCopyAll, Copies, stop, blob_blocks, copy_range-Outcome,
}
use aetus.QueueItem.Release.{AreTidy, release_range-Copies}

-- Where the metrics beyond the fourth are: nowhere, or in a block.
abbrev pub HasMetrics : Heap → Telemetry → List Metric → Type 0
HasMetrics h t ms =
    ((t.heap_metrics ≡ null) × (t.metric_count ≤ inline_metrics_max))
    ⊎ ((n : ℕ) × (t.heap_metrics ≢ null)
        × (h t.heap_metrics ≡ block n (metrics ms))
        × (length ms ≤ heap_slots)
        × (heap_slots * metric_size ≤ n))

-- A telemetry as the API builds it: its blobs hold their bytes, and empty bytes have none.
pub record IsCopyable (h : Heap) (t : Telemetry) (ms : List Metric) : Type 0 where
  pub inline_held : CanCopyAll h (min t.metric_count inline_metrics_max) t.inline_metrics
  pub inline_tidy : AreTidy (min t.metric_count inline_metrics_max) t.inline_metrics
  pub heap_held : CanCopyAll h (heap_count t.metric_count) ms
  pub heap_tidy : AreTidy (heap_count t.metric_count) ms
  pub placed : HasMetrics h t ms

-- The blocks that the copy of a telemetry takes: one for the metrics beyond the fourth where there is
-- one, and one for each blob.
abbrev pub slots_block : List Metric → Block
slots_block ms = record { size = heap_slots * metric_size; content = metrics ms }

abbrev pub copy_blocks : Heap → Telemetry → List Metric → List Block
copy_blocks h t ms =
    (if t.heap_metrics == null then [] else slots_block ms ∷ [])
    ++ (blob_blocks h (min t.metric_count inline_metrics_max) t.inline_metrics
        ++ blob_blocks h (heap_count t.metric_count) ms)

-- What is wanted of a copy that succeeded: releasing the item gives memory back.
abbrev pub GivesBack : Heap → Telemetry → Heap → Type 0
GivesBack h item g = (item' : Telemetry) × (release_telemetry item g ≡ done item' h)

-- The error code with the item that was released.
abbrev pub fail_with : Run Telemetry → Run (EspErr × Telemetry)
fail_with (done i g) = done (no_mem, i) g
fail_with fault = fault

pub fail_with_lem :
    (r : Run Telemetry)
    → and_then {B = EspErr × Telemetry} r (λ i g. done (no_mem, i) g) ≡ fail_with r
fail_with_lem (done i g) = refl
fail_with_lem fault = refl

-- What a run of the copy may come to: success with such an item, or a failure that is passed on, as
-- the allocator does not have the blocks.
pub data Ends (a : Allocator) (h : Heap) (t : Telemetry) (ms : List Metric)
    : Run (EspErr × Telemetry) → Type 0 where
  succeeds :
      {item : Telemetry} {g : Heap} → GivesBack h item g → Ends a h t ms (done (esp_ok, item) g)
  no_block :
      (item : Telemetry) → ¬ Serves a h (copy_blocks h t ms) → Ends a h t ms (done (no_mem, item) h)
  releases : (r : Run Telemetry) → ¬ Serves a h (copy_blocks h t ms) → Ends a h t ms (fail_with r)

copy_heap_range-none :
    (a : Allocator) (p q : Ptr) (h : Heap) → copy_heap_range a zero p q h ≡ done false h
unfolding copy_heap_range
copy_heap_range-none a p q h = refl

-- Where the block of the caller is read, the item has one of its own with the same metrics.
pub copy_heap_metrics-block :
    (a : Allocator) (p : Ptr) (h : Heap) {n : ℕ} (ms : List Metric)
    → p ≢ null
    → h p ≡ block n (metrics ms)
    → length ms ≤ heap_slots
    → heap_slots * metric_size ≤ n
    → a.pick h (heap_slots * metric_size) ≢ null
    → copy_heap_metrics a p h
      ≡ done
          (false, a.pick h (heap_slots * metric_size))
          (write h
            (a.pick h (heap_slots * metric_size))
            (block (heap_slots * metric_size) (metrics ms)))
unfolding copy_heap_metrics
copy_heap_metrics-block a p h ms ne held fits whole found =
    let size = heap_slots * metric_size in
    let q = a.pick h size in
    let apart : p ≢ q = λ same. some-none held (ap h same ∙ a.pick_free h size found) in
    let kept = write_ne h q p (block size raw) apart ∙ held in
    let small : content_size (metrics ms) ≤ size = omega arith in
    rw (ne-== p null ne, malloc-block a h size found, ne-== q null found)
      (rw (load_array-done (write h q (block size raw)) p size ne kept whole)
        (rw (store-new h q size (metrics ms) found small)))

pub copy_heap_metrics-full :
    (a : Allocator) (p : Ptr) (h : Heap)
    → p ≢ null
    → a.pick h (heap_slots * metric_size) ≡ null
    → copy_heap_metrics a p h ≡ done (true, null) h
unfolding copy_heap_metrics
copy_heap_metrics-full a p h ne full =
    rw (ne-== p null ne, malloc-null a h (heap_slots * metric_size) full)

module _ (a : Allocator) (h : Heap) (t : Telemetry) (ms : List Metric) (c : IsCopyable h t ms) where
  abbrev inline_count : ℕ
  inline_count = min t.metric_count inline_metrics_max

  release-inline :
      (copied : List Metric) (cs : Cells)
      → Copies h inline_count t.inline_metrics copied cs
      → Fresh h cs
      → GivesBack h (record t { inline_metrics = copied; heap_metrics = null }) (overlay h cs)
  unfolding release_telemetry
  release-inline copied cs copies fresh =
      let (rs, run, len) = release_range-Copies h copies fresh c.inline_tidy in
      (record t { inline_metrics = rs; heap_metrics = null }, rw run)

  no_slots :
      t.heap_metrics ≡ null
      → copy_blocks h t ms
        ≡ blob_blocks h inline_count t.inline_metrics
          ++ blob_blocks h (heap_count t.metric_count) ms
  no_slots e = rw e refl

  -- No block: only the inline metrics are copied.
  pub copy-inline :
      t.heap_metrics ≡ null
      → t.metric_count ≤ inline_metrics_max
      → Ends a h t ms (copy_telemetry_to_queue_item a t h)
  unfolding copy_telemetry_to_queue_item
  copy-inline e few =
      let o =
        copy_range-Outcome a h inline_count t.inline_metrics h (λ q n c same. same) c.inline_held in
      let none_left : heap_count t.metric_count ≡ 0 = ground arith in
      rw (copy_heap_metrics-null a t.heap_metrics h e, o.runs)
        (elim (Bool-cases o.gave_up) [
          | inl full ↦ rw full (
              rw (fail_with_lem (release_telemetry _ _)) (
                releases _ λ s.
                  o.reason full (blob_blocks h (heap_count t.metric_count) ms)
                    (subst (Serves a h) (no_slots e) s)))
          | inr copied ↦
              rw (copied, none_left, copy_heap_range-none a t.heap_metrics null (overlay h o.cells))
                (succeeds (release-inline o.copied o.cells (o.copies copied) o.fresh))
        ])

-- The loop over the metrics beyond the fourth, in a heap `k` that holds the caller's block and the
-- item's at `q`.
pub record HeapOutcome (a : Allocator) (h k : Heap) (n : ℕ) (p q : Ptr) (ms : List Metric)
    : Type 0 where
  pub gave_up : Bool
  pub copied : List Metric
  pub cells : Cells
  pub runs :
      copy_heap_range a n p q k
      ≡ done gave_up (write (overlay k cells) q (block (heap_slots * metric_size) (metrics copied)))
  pub fresh : Fresh k cells
  pub copies : gave_up ≡ false → Copies h n ms copied cells
  pub same_size : length copied ≡ length ms
  pub reason : gave_up ≡ true → ¬ Serves a k (blob_blocks h n ms)

pub copy_heap_range-HeapOutcome :
    (a : Allocator) (h k : Heap) (n : ℕ) (p q : Ptr) (ms : List Metric) {size : ℕ}
    → Agrees h k
    → CanCopyAll h n ms
    → p ≢ null
    → q ≢ null
    → k p ≡ block size (metrics ms)
    → k q ≡ block (heap_slots * metric_size) (metrics ms)
    → length ms ≤ heap_slots
    → HeapOutcome a h k n p q ms
unfolding copy_heap_range overlay
copy_heap_range-HeapOutcome a h k zero p q ms same can p_ne q_ne p_held q_held fits = record {
  gave_up = false;
  copied = ms;
  cells = [];
  runs = ap (done false) (sym (write_id k q _ q_held));
  fresh = tt;
  copies = λ e. stop;
  same_size = refl;
  reason = λ e. cc;
}
copy_heap_range-HeapOutcome a h k (suc n) p q ms same can p_ne q_ne p_held q_held fits =
    let o = copy_range-Outcome a h (suc n) ms k same can in
    let out = Fresh-NotIn k q o.cells q_held o.fresh in
    let q_now = overlay-out k q o.cells out ∙ q_held in
    let small : content_size (metrics o.copied) ≤ heap_slots * metric_size =
      omega (arith, o.size) in
    record {
      gave_up = o.gave_up;
      copied = o.copied;
      cells = o.cells;
      runs =
          rw (load_metrics-done k p p_ne p_held, o.runs)
            (rw (store-done (overlay k o.cells) q q_ne q_now (metrics o.copied) small));
      fresh = o.fresh;
      copies = o.copies;
      same_size = o.size;
      reason = λ full s.
          o.reason full [] (subst (Serves a k) (sym (append-nil (blob_blocks h (suc n) ms))) s);
    }
