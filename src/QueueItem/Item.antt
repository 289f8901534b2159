-- ===== src/QueueItem/Item.antt =====
-- The deep copy of a telemetry and its release, taken together.
use aetus.Base.{
  ℕ, ◌∷◌, ◌++◌, ◌*◌, ◌≤◌, ◌≡◌, ◌≢◌, refl, subst, sym, ap, ◌∙◌, inl, inr, Option, none, some, List,
  arith, ◌==◌, Bool-cases, length, min, ==-ne, ==_iff, ne-==,
}
use aetus.Types.{Ptr, null, Metric, Telemetry, inline_metrics_max}
use aetus.Esp.{EspErr, esp_ok}
use aetus.Heap.{
  Heap, Allocator, Block, Run, done, fault, block, write, metrics, metric_size, content_size,
}
use aetus.Heap.Write.{store-done, free-done, load_metrics-done, write_same, write_twice, write_undo}
use aetus.Telemetry.{heap_count, heap_slots}
use aetus.QueueItem.{release_telemetry, copy_telemetry_to_queue_item}
use aetus.QueueItem.Overlay.{
  Serves, Cells, overlay, Fresh, NotIn, overlay-out, overlay-write, overlay_comm, Fresh-write,
  Fresh-past, Fresh-overlay, Fresh-add, Agrees-write, Agrees-overlay,
}
use aetus.QueueItem.Copy.{Copies, blob_blocks, copy_range-Outcome}
use aetus.QueueItem.Release.{release_range-Copies}
use aetus.QueueItem.Stages.{
  IsCopyable, slots_block, copy_blocks, GivesBack, fail_with, fail_with_lem, Ends, succeeds,
  no_block, releases, copy_heap_metrics-block, copy_heap_metrics-full, copy-inline,
  copy_heap_range-HeapOutcome,
}

module _ (a : Allocator) (h : Heap) (t : Telemetry) (ms : List Metric) (c : IsCopyable h t ms) where
  abbrev slots : List Metric → Option Block
  slots xs = some (slots_block xs)

  -- The blobs of both arrays and the block between them are given back.
  release-both :
      (q : Ptr) (inline copied : List Metric) (c1 c2 : Cells)
      → q ≢ null
      → h q ≡ none
      → length ms ≤ heap_slots
      → length copied ≡ length ms
      → Copies h (min t.metric_count inline_metrics_max) t.inline_metrics inline c1
      → Copies h (heap_count t.metric_count) ms copied c2
      → NotIn q c1
      → NotIn q c2
      → Fresh h c1
      → Fresh (overlay h c1) c2
      → GivesBack h
          (record t { inline_metrics = inline; heap_metrics = q })
          (write (overlay (overlay h c1) c2) q (slots copied))
  unfolding release_telemetry
  release-both q inline copied c1 c2 ne free fits same copies1 copies2 out1 out2 f1 f2 =
      let k = write (overlay h c2) q (slots copied) in
      let swapped : write (overlay (overlay h c1) c2) q (slots copied) ≡ overlay k c1 =
        ap (λ g. write g q (slots copied)) (overlay_comm h c1 c2 f2)
        ∙ sym (overlay-write (overlay h c2) q (slots copied) c1 out1) in
      let f1_now = Fresh-add (overlay h c2) q (slots copied) c1 out1 (Fresh-past h c1 c2 f1 f2) in
      let (rs, run, len) = release_range-Copies k copies1 f1_now c.inline_tidy in
      let under : k ≡ overlay (write h q (slots copied)) c2 =
        sym (overlay-write h q (slots copied) c2 out2) in
      let f2_now = Fresh-add h q (slots copied) c2 out2 (Fresh-overlay h c1 c2 f2) in
      let (rs', run', len') =
        release_range-Copies (write h q (slots copied)) copies2 f2_now c.heap_tidy in
      let small : content_size (metrics rs') ≤ heap_slots * metric_size = omega (arith, len') in
      (
        record t { inline_metrics = rs; heap_metrics = null },
        rw (swapped, run, ne-== q null ne)
            (rw (load_metrics-done k q ne (write_same (overlay h c2) q (slots copied))) (
              rw (under, run')
                (rw
                  (
                    store-done (write h q (slots copied)) q ne (write_same h q (slots copied))
                        (metrics rs') small,
                    write_twice h q (slots copied) (slots rs'),
                  )
                  (rw (
                    free-done (write h q (slots rs')) q ne (write_same h q (slots rs')),
                    write_undo h q (slots rs') free,
                  ))))),
      )

  -- The same, where the item's block was allocated before the blobs.
  release-item :
      (q : Ptr) (inline copied : List Metric) (c1 c2 : Cells)
      → q ≢ null
      → h q ≡ none
      → length ms ≤ heap_slots
      → length copied ≡ length ms
      → Copies h (min t.metric_count inline_metrics_max) t.inline_metrics inline c1
      → Copies h (heap_count t.metric_count) ms copied c2
      → Fresh (write h q (slots ms)) c1
      → Fresh (overlay (write h q (slots ms)) c1) c2
      → GivesBack h
          (record t { inline_metrics = inline; heap_metrics = q })
          (write (overlay (overlay (write h q (slots ms)) c1) c2) q (slots copied))
  release-item q inline copied c1 c2 ne free fits same copies1 copies2 f1 f2 =
      let b : Block = record { size = heap_slots * metric_size; content = metrics ms } in
      let first = Fresh-write h q b c1 f1 in
      let moved = overlay-write h q (some b) c1 first.0 in
      let f2' : Fresh (write (overlay h c1) q (some b)) c2 = subst (λ g. Fresh g c2) moved f2 in
      let second = Fresh-write (overlay h c1) q b c2 f2' in
      let all : write (overlay (overlay (write h q (some b)) c1) c2) q (slots copied)
          ≡ write (overlay (overlay h c1) c2) q (slots copied) =
        ap (λ g. write (overlay g c2) q (slots copied)) moved
        ∙ ap (λ g. write g q (slots copied)) (overlay-write (overlay h c1) q (some b) c2 second.0)
        ∙ write_twice (overlay (overlay h c1) c2) q (some b) (slots copied) in
      rw all (
        release-both q inline copied c1 c2 ne free fits same copies1 copies2 first.0 second.0
          first.1 second.1)

  with_slots :
      t.heap_metrics ≢ null
      → copy_blocks h t ms
        ≡ slots_block ms
          ∷ (blob_blocks h (min t.metric_count inline_metrics_max) t.inline_metrics
              ++ blob_blocks h (heap_count t.metric_count) ms)
  with_slots ne = rw (ne-== t.heap_metrics null ne) refl

  -- With a block: both loops run, over the item's own block too.
  copy-block :
      (n : ℕ)
      → t.heap_metrics ≢ null
      → h t.heap_metrics ≡ block n (metrics ms)
      → length ms ≤ heap_slots
      → heap_slots * metric_size ≤ n
      → a.pick h (heap_slots * metric_size) ≢ null
      → Ends a h t ms (copy_telemetry_to_queue_item a t h)
  unfolding copy_telemetry_to_queue_item
  copy-block n ne held fits whole found =
      let size = heap_slots * metric_size in
      let q = a.pick h size in
      let free = a.pick_free h size found in
      let heap_blobs = blob_blocks h (heap_count t.metric_count) ms in
      let inline_blobs = blob_blocks h (min t.metric_count inline_metrics_max) t.inline_metrics in
      let k = write h q (slots ms) in
      let taken : Serves a h (copy_blocks h t ms) → Serves a k (inline_blobs ++ heap_blobs) =
        λ s. (subst (Serves a h) (with_slots ne) s).1 in
      let agrees = Agrees-write q (slots ms) (λ p n c same. same) free in
      let o =
        copy_range-Outcome a h (min t.metric_count inline_metrics_max) t.inline_metrics k agrees
          c.inline_held in
      let apart = Fresh-write h q (record { size = size; content = metrics ms }) o.cells o.fresh in
      let same = Agrees-overlay o.cells agrees o.fresh in
      let q_held : overlay k o.cells q ≡ slots ms =
        overlay-out k q o.cells apart.0 ∙ write_same h q (slots ms) in
      let r =
        copy_heap_range-HeapOutcome a h (overlay k o.cells) (heap_count t.metric_count)
          t.heap_metrics q ms same c.heap_held ne found (same t.heap_metrics n (metrics ms) held)
          q_held fits in
      rw (copy_heap_metrics-block a t.heap_metrics h ms ne held fits whole found, o.runs)
        (elim (Bool-cases o.gave_up) [
          | inl full ↦ rw full (
              rw (fail_with_lem (release_telemetry _ _))
                (releases _ λ s. o.reason full heap_blobs (taken s)))
          | inr copied ↦
              rw (copied, r.runs)
                (elim (Bool-cases r.gave_up) [
                  | inl full ↦ rw full (
                      rw (fail_with_lem (release_telemetry _ _))
                        (releases _ λ s. r.reason full (o.served copied heap_blobs (taken s))))
                  | inr all ↦ rw all (
                      succeeds (
                        release-item q o.copied r.copied o.cells r.cells found free fits r.same_size
                          (o.copies copied) (r.copies all) o.fresh r.fresh))
                ])
        ])

  copy_telemetry-Ends : Ends a h t ms (copy_telemetry_to_queue_item a t h)
  unfolding copy_telemetry_to_queue_item
  copy_telemetry-Ends = elim c.placed [
    | inl (e, few) ↦ copy-inline a h t ms c e few
    | inr (n, ne, held, fits, whole) ↦
        elim (Bool-cases (a.pick h (heap_slots * metric_size) == null)) [
          | inl full ↦
              let out : a.pick h (heap_slots * metric_size) ≡ null = (==_iff _ null).0 full in
              rw (copy_heap_metrics-full a t.heap_metrics h ne out) (
                no_block (record t { heap_metrics = null })
                  (λ s. (subst (Serves a h) (with_slots ne) s).0 out))
          | inr found ↦ copy-block n ne held fits whole (==-ne _ null found)
        ]
  ]

passed-on :
    (r : Run Telemetry) {item : Telemetry} {g : Heap} → fail_with r ≡ done (esp_ok, item) g → ⊥
passed-on (done i k) e = cc
passed-on fault e = cc

abbrev item_of : Telemetry → Run (EspErr × Telemetry) → Telemetry
item_of d (done (e, item) g) = item
item_of d fault = d

abbrev heap_of : Heap → Run (EspErr × Telemetry) → Heap
heap_of d (done (e, item) g) = g
heap_of d fault = d

Ends-ok :
    {a : Allocator} {h : Heap} {t : Telemetry} {ms : List Metric} {r : Run (EspErr × Telemetry)}
    {item : Telemetry} {g : Heap}
    → Ends a h t ms r
    → r ≡ done (esp_ok, item) g
    → GivesBack h item g
Ends-ok {h} {item} {g} (succeeds {item = i} {g = k} b) e =
    subst (λ x. GivesBack h x g) (ap (item_of i) e)
      (subst (λ x. GivesBack h i x) (ap (heap_of k) e) b)
Ends-ok (no_block item out) e = absurd (cc)
Ends-ok (releases r out) e = absurd (passed-on r e)

-- Copying a telemetry for the queue and releasing the item leaves memory exactly as it was: what
-- the copy allocated is freed, each block once, and no block of the caller is.
pub release-copy_telemetry :
    (a : Allocator) (h g : Heap) (t item : Telemetry) (ms : List Metric)
    → IsCopyable h t ms
    → copy_telemetry_to_queue_item a t h ≡ done (esp_ok, item) g
    → (item' : Telemetry) × (release_telemetry item g ≡ done item' h)
release-copy_telemetry a h g t item ms c e = Ends-ok (copy_telemetry-Ends a h t ms c) e

-- The deep copy of a telemetry as the API builds it succeeds, without a fault, if the allocator has the
-- blocks that it takes: one for the metrics beyond the fourth, where there is one, and one for each
-- blob, in this order.
pub copy_telemetry-Serves :
    (a : Allocator) (h : Heap) (t : Telemetry) (ms : List Metric)
    → IsCopyable h t ms
    → Serves a h (copy_blocks h t ms)
    → (item : Telemetry) × (g : Heap) × (copy_telemetry_to_queue_item a t h ≡ done (esp_ok, item) g)
copy_telemetry-Serves a h t ms c enough = go (copy_telemetry-Ends a h t ms c)
  where
    go :
        {r : Run (EspErr × Telemetry)}
        → Ends a h t ms r
        → (item : Telemetry) × (g : Heap) × (r ≡ done (esp_ok, item) g)
    go (succeeds {item} {g} b) = (item, g, refl)
    go (no_block item out) = absurd (out enough)
    go (releases r out) = absurd (out enough)
