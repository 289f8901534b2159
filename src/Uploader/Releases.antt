-- ===== src/Uploader/Releases.antt =====
-- The release of an item that owns its blocks: it does not fault, and changes no other block.
use aetus.Base.{
  ℕ, zero, suc, ◌*◌, ◌≤◌, ◌≡◌, ◌≢◌, refl, sym, ap, ◌∙◌, true, none, List, [], ◌∷◌, ◌++◌, arith,
  ◌==◌, ne-==, ==_iff, length, min,
}
use aetus.Types.{
  Ptr, null, Metric, Telemetry, SignalPoolStats, QueueItem, telemetry, signal_frame,
  inline_metrics_max,
}
use aetus.Heap.{Heap, block, bytes, metrics, metric_size, content_size, write, done}
use aetus.Heap.Write.{
  write_ne, free-done, store-done, load_metrics-done, load_size-done, write_same, write_twice,
}
use aetus.SignalPool.{release, note_release}
use aetus.Telemetry.{owns_blob, heap_count}
use aetus.QueueItem.{release_blob, release_range, release_telemetry, release_telemetry_queue_item}
use aetus.QueueItem.Release.{release_blob-keep}
use aetus.Uploader.{release_queue_item}
use aetus.Uploader.Owned.{
  IsOutside, AreApart, erase, erase-outside, Blobs, stop, plain, blob, Blobs-Agrees, Agrees, Owns,
  of_status, of_frame, of_inline, of_heap, front, back,
}

Agrees-write : (h : Heap) (p : Ptr) (ps : List Ptr) → IsOutside p ps → Agrees h (write h p none) ps
Agrees-write h p [] out = tt
Agrees-write h p (q ∷ ps) out =
    (write_ne h p q none (λ e. out.0 (sym e)), Agrees-write h p ps out.1)

pub Agrees-erase : (h : Heap) (ps qs : List Ptr) → AreApart qs ps → Agrees h (erase ps h) qs
Agrees-erase h ps [] apart = tt
Agrees-erase h ps (q ∷ qs) apart = (erase-outside q ps h apart.0, Agrees-erase h ps qs apart.1)

freed :
    (h : Heap) (m : Metric) (k : ℕ) (bs : List ℕ)
    → owns_blob m ≡ true
    → m.value ≢ null
    → h m.value ≡ block k (bytes bs)
    → release_blob m h ≡ done (record m { value = null; blob_size = 0 }) (write h m.value none)
unfolding release_blob
freed h m k bs owned ne at = rw (owned, free-done h m.value ne at) refl

release_range-Blobs :
    (h : Heap) (n : ℕ) (ms : List Metric) {ps : List Ptr}
    → Blobs h n ms ps
    → (ms' : List Metric) × (release_range n ms h ≡ done ms' (erase ps h))
      × (length ms' ≡ length ms)
unfolding release_range erase
release_range-Blobs h zero ms stop = (ms, refl, refl)
release_range-Blobs h (suc n) [] b = elim b [ ]
release_range-Blobs h (suc n) (m ∷ ms) (plain none_owned b) =
    let (ms', run, len) = release_range-Blobs h n ms b in
    (m ∷ ms', rw (release_blob-keep m h none_owned, run) refl, ap suc len)
release_range-Blobs h (suc n) (m ∷ ms) (blob {ps} k bs owned ne at readable out b) =
    let left = write h m.value none in
    let (ms', run, len) =
      release_range-Blobs left n ms (Blobs-Agrees left (Agrees-write h m.value ps out) b) in
    (
      record m { value = null; blob_size = 0 } ∷ ms',
      rw (freed h m k bs owned ne at, run) refl,
      ap suc len,
    )

-- What a release leaves.
abbrev pub Releases : SignalPoolStats → QueueItem → Heap → List Ptr → Type 0
Releases stats x h ps =
    (r : SignalPoolStats × QueueItem) × (g : Heap) × (release_queue_item stats x h ≡ done r g)
    × ((q : Ptr) → IsOutside q ps → g q ≡ h q)

release-heap :
    (h : Heap) (t : Telemetry) {ps qs : List Ptr} (n : ℕ) (ms : List Metric)
    → t.heap_metrics ≢ null
    → h t.heap_metrics ≡ block n (metrics ms)
    → length ms * metric_size ≤ n
    → Blobs h (min t.metric_count inline_metrics_max) t.inline_metrics ps
    → Blobs h (heap_count t.metric_count) ms qs
    → AreApart qs ps
    → IsOutside t.heap_metrics ps
    → IsOutside t.heap_metrics qs
    → (t' : Telemetry) × (release_telemetry t h
        ≡ done t' (write (erase qs (erase ps h)) t.heap_metrics none))
unfolding release_telemetry
release-heap h t {ps} {qs} n ms ne at fits b c apart out out' =
    let (inline, run, len) =
      release_range-Blobs h (min t.metric_count inline_metrics_max) t.inline_metrics b in
    let k = erase ps h in
    let at_k = erase-outside t.heap_metrics ps h out ∙ at in
    let (ms', run', len') =
      release_range-Blobs k (heap_count t.metric_count) ms
        (Blobs-Agrees k (Agrees-erase h ps qs apart) c) in
    let g = erase qs k in
    let at_g = erase-outside t.heap_metrics qs k out' ∙ at_k in
    let small : content_size (metrics ms') ≤ n = omega (arith, len') in
    (
      record t { inline_metrics = inline; heap_metrics = null },
      rw (run, ne-== t.heap_metrics null ne)
          (rw (load_metrics-done k t.heap_metrics ne at_k) (
            rw run' (
              rw (store-done g t.heap_metrics ne at_g (metrics ms') small) (
                rw
                  (free-done (write g t.heap_metrics (block n (metrics ms'))) t.heap_metrics ne
                    (write_same g t.heap_metrics (block n (metrics ms'))))
                  (ap (done (record t { inline_metrics = inline; heap_metrics = null }))
                    (write_twice g t.heap_metrics (block n (metrics ms')) none)))))),
    )

outside-erase2 :
    (q p : Ptr) (ps qs : List Ptr) (h : Heap)
    → IsOutside q (p ∷ ps ++ qs)
    → write (erase qs (erase ps h)) p none q ≡ h q
outside-erase2 q p ps qs h out =
    write_ne (erase qs (erase ps h)) p q none out.0
    ∙ erase-outside q qs (erase ps h) (back (λ r. q ≢ r) ps qs out.1)
    ∙ erase-outside q ps h (front (λ r. q ≢ r) ps qs out.1)

release-inline :
    (h : Heap) (t : Telemetry) {ps : List Ptr}
    → t.heap_metrics ≡ null
    → Blobs h (min t.metric_count inline_metrics_max) t.inline_metrics ps
    → (t' : Telemetry) × (release_telemetry t h ≡ done t' (erase ps h))
unfolding release_telemetry
release-inline h t e b =
    let (inline, run, len) =
      release_range-Blobs h (min t.metric_count inline_metrics_max) t.inline_metrics b in
    let none_there : (t.heap_metrics == null) ≡ true = (==_iff t.heap_metrics null).1 e in
    (record t { inline_metrics = inline }, rw (run, none_there) refl)

release-telemetry :
    (h : Heap) (stats : SignalPoolStats) (t t' : Telemetry) (g : Heap)
    → release_telemetry t h ≡ done t' g
    → release_queue_item stats (telemetry t) h ≡ done (stats, telemetry t') g
unfolding release_queue_item release_telemetry_queue_item
release-telemetry h stats t t' g run = rw run refl

-- The release of an item that owns its blocks finishes, and leaves every other block as it was.
pub release-Owns :
    (h : Heap) (stats : SignalPoolStats) {x : QueueItem} {ps : List Ptr}
    → Owns h x ps
    → Releases stats x h ps
unfolding release_queue_item release
release-Owns h stats {x} of_status = ((stats, x), h, refl, λ q out. refl)
release-Owns h stats (of_frame {frame} {owner} n m bs ne at same fits channels) = (
  (note_release stats m, signal_frame (record frame { samples = null; samples_size = 0 }) null),
  write h owner none,
  rw (ne-== owner null ne, load_size-done h owner ne at, free-done h owner ne at) refl,
  λ q out. write_ne h owner q none out.0,
)
release-Owns h stats (of_inline {t} {ps} e few b) =
    let (t', run) = release-inline h t e b in
    (
      (stats, telemetry t'),
      erase ps h,
      release-telemetry h stats t t' (erase ps h) run,
      λ q out. erase-outside q ps h out,
    )
release-Owns h stats (of_heap {t} {ps} {qs} n ms ne at fits few b c apart out out') =
    let g = write (erase qs (erase ps h)) t.heap_metrics none in
    let (t', run) = release-heap h t n ms ne at fits b c apart out out' in
    (
      (stats, telemetry t'),
      g,
      release-telemetry h stats t t' g run,
      λ q away. outside-erase2 q t.heap_metrics ps qs h away,
    )
