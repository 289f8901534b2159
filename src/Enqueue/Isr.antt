-- ===== src/Enqueue/Isr.antt =====
-- What an interrupt may queue: a telemetry that owns no memory, so that it needs no copy.
use aetus.Base.{
  ℕ, zero, suc, ◌==◌, ◌*◌, ◌≢◌, Bool-cases, ◌≤◌, ◌≡◌, refl, ap, length, inl, inr, true, false, ◌||◌,
  Option, none, some, List, [], ◌∷◌, ◌++◌, arith, ltb, min,
}
use aetus.Types.{Metric, Telemetry, telemetry, inline_metrics_max, null}
use aetus.Esp.{esp_ok, timeout}
use aetus.Heap.{Heap, done, block, metrics, metric_size, write}
use aetus.Heap.Write.{load_metrics-done, store-done, free-done, write_id}
use aetus.Rtos.{RtosQueue}
use aetus.QueueItem.{release_telemetry, release_range, release_blob}
use aetus.Enqueue.{enqueue_telemetry_from_isr, has_blob, sent}
use aetus.Telemetry.{owns_blob, heap_count}

release_range-plain :
    (rtos : RtosQueue) (n : ℕ) (ms : List Metric) (h : Heap)
    → n ≤ length ms
    → has_blob rtos n ms ≡ false
    → release_range n ms h ≡ done ms h
unfolding has_blob release_range release_blob
release_range-plain rtos zero ms h le e = refl
release_range-plain rtos (suc n) [] h le e = absurd (omega arith)
release_range-plain rtos (suc n) (m ∷ ms) h le e =
    let plain : owns_blob m ≡ false = ground arith in
    let rest : has_blob rtos n ms ≡ false = ground arith in
    rw (plain, release_range-plain rtos n ms h (omega arith) rest) refl

release_range-none : (ms : List Metric) (h : Heap) → release_range 0 ms h ≡ done ms h
unfolding release_range
release_range-none ms h = refl

sent_ok :
    (rtos : RtosQueue) (q q' : rtos.Queue) (o : Option rtos.Queue)
    → sent rtos timeout q o ≡ (esp_ok, some q')
    → o ≡ some q'
sent_ok rtos q q' none e = absurd (cc (ap (λ p. p.0) e))
sent_ok rtos q q' (some r) e = ap (λ p. p.1) e

accepted :
    (rtos : RtosQueue) (q q' : rtos.Queue) (t : Telemetry)
    → enqueue_telemetry_from_isr rtos (some q) (some t) ≡ (esp_ok, some q')
    → (t.metric_count ≤ inline_metrics_max)
      × (has_blob rtos t.metric_count t.inline_metrics ≡ false)
      × (rtos.items q' ≡ rtos.items q ++ telemetry t ∷ [])
unfolding enqueue_telemetry_from_isr
accepted rtos q q' t e =
    let rejects =
      ltb inline_metrics_max t.metric_count || has_blob rtos t.metric_count t.inline_metrics in
    elim (Bool-cases rejects) [
      | inl y ↦ absurd (cc (ap (λ p. p.0) (rw y at e)))
      | inr n ↦
          let found = sent_ok rtos q q' (rtos.send q (telemetry t) 0) (rw n at e) in
          (ground arith, ground arith, rtos.send_items q q' (telemetry t) 0 found)
    ]

-- A telemetry that an interrupt queues without an array on the heap goes to the end of the queue,
-- and releasing it, there and then or later, touches no memory.
pub enqueue_telemetry_from_isr-owns_nothing :
    (rtos : RtosQueue) (q q' : rtos.Queue) (t : Telemetry) (h : Heap)
    → length t.inline_metrics ≡ inline_metrics_max
    → t.heap_metrics ≡ null
    → enqueue_telemetry_from_isr rtos (some q) (some t) ≡ (esp_ok, some q')
    → (rtos.items q' ≡ rtos.items q ++ telemetry t ∷ []) × (release_telemetry t h ≡ done t h)
unfolding release_telemetry
enqueue_telemetry_from_isr-owns_nothing rtos q q' t h len nil e =
    let (few, plain, queued) = accepted rtos q q' t e in
    let all : min t.metric_count inline_metrics_max ≡ t.metric_count = omega arith in
    let noheap : (t.heap_metrics == null) ≡ true = ground arith in
    (
      queued,
      rw
          (
            all,
            release_range-plain rtos t.metric_count t.inline_metrics h (omega arith) plain,
            noheap,
          )
          refl,
    )

-- A telemetry with an array on the heap is queued by an interrupt as it is when its metrics are all
-- inline: the queue's copy shares the array, and releasing the copy frees the caller's block.
pub enqueue_telemetry_from_isr-frees_caller :
    (rtos : RtosQueue) (q q' : rtos.Queue) (t : Telemetry) (h : Heap) (n : ℕ) (ms : List Metric)
    → length t.inline_metrics ≡ inline_metrics_max
    → t.heap_metrics ≢ null
    → h t.heap_metrics ≡ block n (metrics ms)
    → length ms * metric_size ≤ n
    → enqueue_telemetry_from_isr rtos (some q) (some t) ≡ (esp_ok, some q')
    → (rtos.items q' ≡ rtos.items q ++ telemetry t ∷ [])
      × ((t' : Telemetry) × (release_telemetry t h ≡ done t' (write h t.heap_metrics none)))
unfolding release_telemetry
enqueue_telemetry_from_isr-frees_caller rtos q q' t h n ms len ne held fits e =
    let (few, plain, queued) = accepted rtos q q' t e in
    let all : min t.metric_count inline_metrics_max ≡ t.metric_count = omega arith in
    let some_heap : (t.heap_metrics == null) ≡ false = ground arith in
    let no_more : heap_count t.metric_count ≡ 0 = ground arith in
    (
      queued,
      (
        record t { heap_metrics = null },
        rw
            (
              all,
              release_range-plain rtos t.metric_count t.inline_metrics h (omega arith) plain,
              some_heap,
            )
            (rw
              (
                load_metrics-done h t.heap_metrics ne held,
                no_more,
                release_range-none ms h,
                store-done h t.heap_metrics ne held (metrics ms) fits,
                write_id h t.heap_metrics (block n (metrics ms)) held,
                free-done h t.heap_metrics ne held,
              )
              refl),
      ),
    )
