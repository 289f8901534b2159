-- ===== src/Enqueue/Memory.antt =====
-- Memory when a producer's send succeeds, and when it does not.
use aetus.Base.{
  ℕ, ◌+◌, ◌≤◌, ◌≡◌, ◌≢◌, ◌⊎◌, inl, inr, refl, sym, subst, ap, ◌∙◌, Option, none, some, List, [],
  ◌∷◌, ◌++◌, arith, length, false, ◌==◌, some-none, length-take, take_all, take,
}
use aetus.Types.{Ptr, null, SignalFrame, SignalPoolStats, signal_frame}
use aetus.Esp.{esp_ok, no_mem, timeout}
use aetus.Heap.Write.{write_same, write_ne, write_twice, write_undo, store-done, load_bytes-done}
use aetus.SignalPool.Blocks.{fresh_block, IsAllocated, alloc-in_range, release-block}
use aetus.SignalPool.{note_alloc, note_release, note_failure, note_queue_send_failure}
use aetus.Frame.Size.{IsSendable, validate_signal_frame_iff}
use aetus.Heap.{
  Heap, Block, write, store, sample_header_size, Allocator, Run, done, block, bytes, load_bytes,
  sample_block,
}
use aetus.Rtos.{RtosQueue}
use aetus.Uploader.{release_queue_item}
use aetus.Enqueue.{Outcome, send_or_count, send_frame, enqueue_signal_frame}

-- A write of the samples to a block that was allocated for them.
store_samples :
    (h : Heap) (p : Ptr) (size : ℕ) (bs : List ℕ)
    → p ≢ null
    → length bs ≡ size
    → store p
        (sample_block size bs)
        (write h p (block (sample_header_size + size) (fresh_block size)))
      ≡ done tt (write h p (block (sample_header_size + size) (sample_block size bs)))
store_samples h p size bs ne len =
    rw
      (store-done (write h p (block (sample_header_size + size) (fresh_block size))) p ne
        (write_same h p _) (sample_block size bs) (omega arith))
      (ap (done tt) (write_twice h p _ _))

-- They can be read back.
load_samples :
    (h : Heap) (p : Ptr) (size : ℕ) (bs : List ℕ)
    → p ≢ null
    → length bs ≡ size
    → load_bytes p size (write h p (block (sample_header_size + size) (sample_block size bs)))
      ≡ done bs (write h p (block (sample_header_size + size) (sample_block size bs)))
unfolding load_bytes
load_samples h p size bs ne len =
    let nonnull : (p == null) ≡ false = ground arith in
    rw (nonnull, write_same h p (block (sample_header_size + size) (sample_block size bs)))
      (ground (arith, take_all size bs))

-- The caller's samples are still there after the allocation.
samples_kept :
    (h : Heap) (p s : Ptr) (b : Option Block) {n : ℕ} {bs : List ℕ}
    → h p ≡ none
    → h s ≡ block n (bytes bs)
    → write h p b s ≡ block n (bytes bs)
samples_kept h p s b free held = write_ne h p s b (λ e. some-none held (ap h e ∙ free)) ∙ held

module _ (rtos : RtosQueue) (a : Allocator) where
  -- What the send of a frame with a block for its samples comes to.
  abbrev frame_sent :
      rtos.Queue
      → SignalPoolStats
      → (frame : SignalFrame) (bs : List ℕ) → Heap
      → Ptr
      → Option rtos.Queue
      → Run (Outcome rtos)
  frame_sent q stats frame bs h p none =
      done (timeout, some q, note_release (note_queue_send_failure stats) frame.samples_size) h
  frame_sent q stats frame bs h p (some q') =
      done (esp_ok, some q', stats)
        (write h p (
          block (sample_header_size + frame.samples_size)
            (sample_block frame.samples_size (take frame.samples_size bs))))

  count_lem :
      (q : rtos.Queue) (stats : SignalPoolStats) (frame : SignalFrame) (h : Heap) (p : Ptr)
      (bs : List ℕ) (o : Option rtos.Queue)
      → IsAllocated h p frame.samples_size
      → send_or_count rtos a q stats (signal_frame (record frame { samples = p }) p) o (
          write h p (
            block
              (sample_header_size + frame.samples_size)
              (sample_block frame.samples_size (take frame.samples_size bs))))
        ≡ frame_sent q stats frame bs h p o
  unfolding release_queue_item
  count_lem q stats frame h p bs none is =
      let b =
        block (sample_header_size + frame.samples_size)
          (sample_block frame.samples_size (take frame.samples_size bs)) in
      rw
        (
          release-block (note_queue_send_failure stats) (write h p b) p is.ne_null
              (write_same h p b),
          write_undo h p b is.was_free,
        )
        refl
  count_lem q stats frame h p bs (some q') is = refl

  send_frame_lem :
      (q : rtos.Queue) (stats : SignalPoolStats) (frame : SignalFrame) (ticks : ℕ) (h : Heap)
      (p : Ptr) (bs : List ℕ) {n : ℕ} (o : Option rtos.Queue)
      → IsAllocated h p frame.samples_size
      → frame.samples ≢ null
      → h frame.samples ≡ block n (bytes bs)
      → frame.samples_size ≤ length bs
      → rtos.send q (signal_frame (record frame { samples = p }) p) ticks ≡ o
      → send_frame rtos a q frame ticks
          (stats, p, p)
          (write h p
            (block (sample_header_size + frame.samples_size) (fresh_block frame.samples_size)))
        ≡ frame_sent q stats frame bs h p o
  send_frame_lem q stats frame ticks h p bs o is ne held fits sent =
      let size = frame.samples_size in
      let there = is.ne_null in
      let nonnull : (p == null) ≡ false = ground arith in
      rw
        (
          nonnull,
          load_bytes-done _ frame.samples size ne
              (samples_kept h p frame.samples _ is.was_free held) fits,
          store_samples h p size (take size bs) is.ne_null (length-take size bs ∙ omega arith),
          sent,
        )
        (count_lem q stats frame h p bs o is)

  -- The whole call, from the allocation on.
  enqueued :
      (q : rtos.Queue) (stats : SignalPoolStats) (frame : SignalFrame) (ticks : ℕ) (h : Heap)
      (bs : List ℕ) {n : ℕ}
      → IsSendable frame
      → h frame.samples ≡ block n (bytes bs)
      → frame.samples_size ≤ length bs
      → ((a.pick h (sample_header_size + frame.samples_size) ≡ null)
          × (enqueue_signal_frame rtos a (some q) stats (some frame) ticks h
              ≡ done (no_mem, some q, note_failure stats) h))
        ⊎ ((p : Ptr) × IsAllocated h p frame.samples_size
            × (enqueue_signal_frame rtos a (some q) stats (some frame) ticks h
                ≡ frame_sent q
                    (note_alloc stats frame.samples_size)
                    frame
                    bs
                    h
                    p
                    (rtos.send q (signal_frame (record frame { samples = p }) p) ticks)))
  unfolding enqueue_signal_frame
  enqueued q stats frame ticks h bs sendable held fits =
      let valid = (validate_signal_frame_iff frame).1 sendable in
      elim (alloc-in_range a stats frame.samples_size h sendable.some_samples
        sendable.samples_within) [
          | inl (full, e) ↦ inl (full, rw (valid, e) refl)
          | inr (p, is, e) ↦ inr (
            p,
            is,
            rw (valid, e)
                (send_frame_lem q (note_alloc stats frame.samples_size) frame ticks h p bs
                  (rtos.send q (signal_frame (record frame { samples = p }) p) ticks) is
                  sendable.has_samples held fits refl),
          )
        ]

-- The block of a frame's samples.
abbrev pub samples_of : SignalFrame → List ℕ → Option Block
samples_of frame bs =
    let size = frame.samples_size in
    block (sample_header_size + size) (sample_block size (take size bs))

-- A run that leaves the frame at the end of the queue, with the samples in a block of its own, and
-- the rest of memory as it was.
abbrev pub IsQueued :
    (rtos : RtosQueue)
    → rtos.Queue
    → SignalPoolStats
    → SignalFrame
    → List ℕ
    → Heap
    → Run (Outcome rtos)
    → Type 0
IsQueued rtos q stats frame bs h run =
    (p : Ptr) × (g : Heap) × (q' : rtos.Queue) × (run
      ≡ done (esp_ok, some q', note_alloc stats frame.samples_size) g)
    × (rtos.items q' ≡ rtos.items q ++ signal_frame (record frame { samples = p }) p ∷ [])
    × (load_bytes p frame.samples_size g ≡ done (take frame.samples_size bs) g)
    × IsAllocated h p frame.samples_size
    × (g ≡ write h p (samples_of frame bs))

-- A run that releases the block again, as the queue is full.
abbrev pub IsRefused :
    (rtos : RtosQueue)
    → rtos.Queue
    → SignalPoolStats
    → SignalFrame
    → Heap
    → Run (Outcome rtos)
    → Type 0
IsRefused rtos q stats frame h run =
    (rtos.depth q ≤ length (rtos.items q))
    × (run
        ≡ done
            (
              timeout,
              some q,
              note_release (note_queue_send_failure (note_alloc stats frame.samples_size))
                  frame.samples_size,
            )
            h)

frame_sent_lem :
    (rtos : RtosQueue) (a : Allocator) (q : rtos.Queue) (stats : SignalPoolStats)
    (frame : SignalFrame) (ticks : ℕ) (h : Heap) (p : Ptr) (bs : List ℕ) (o : Option rtos.Queue)
    → IsAllocated h p frame.samples_size
    → frame.samples_size ≤ length bs
    → rtos.send q (signal_frame (record frame { samples = p }) p) ticks ≡ o
    → IsQueued rtos q stats frame bs h
        (frame_sent rtos a q (note_alloc stats frame.samples_size) frame bs h p o)
      ⊎ IsRefused rtos q stats frame h
          (frame_sent rtos a q (note_alloc stats frame.samples_size) frame bs h p o)
frame_sent_lem rtos a q stats frame ticks h p bs none is fits sent =
    inr (rtos.send_full q _ ticks sent, refl)
frame_sent_lem rtos a q stats frame ticks h p bs (some q') is fits sent =
    let size = frame.samples_size in
    inl (
      p,
      write h p (block (sample_header_size + size) (sample_block size (take size bs))),
      q',
      refl,
      rtos.send_items q q' _ ticks sent,
      load_samples h p size (take size bs) is.ne_null (length-take size bs ∙ omega arith),
      is,
      refl,
    )

-- A frame that is sendable, with its samples in memory, is queued with a copy of them in a block of
-- its own, the rest of memory as before; or it is not, as the queue is full, and memory is as before;
-- or it is not, as the allocator has no block for the samples with their header, and memory is as
-- before. The counters record which.
pub enqueue_signal_frame-outcome :
    (rtos : RtosQueue) (a : Allocator) (q : rtos.Queue) (stats : SignalPoolStats)
    (frame : SignalFrame) (ticks : ℕ) (h : Heap) (bs : List ℕ) {n : ℕ}
    → IsSendable frame
    → h frame.samples ≡ block n (bytes bs)
    → frame.samples_size ≤ length bs
    → IsQueued rtos q stats frame bs h
        (enqueue_signal_frame rtos a (some q) stats (some frame) ticks h)
      ⊎ (IsRefused rtos q stats frame h
            (enqueue_signal_frame rtos a (some q) stats (some frame) ticks h)
          ⊎ ((a.pick h (sample_header_size + frame.samples_size) ≡ null)
              × (enqueue_signal_frame rtos a (some q) stats (some frame) ticks h
                  ≡ done (no_mem, some q, note_failure stats) h)))
enqueue_signal_frame-outcome rtos a q stats frame ticks h bs sendable held fits =
    elim (enqueued rtos a q stats frame ticks h bs sendable held fits) [
      | inl full ↦ inr (inr full)
      | inr (p, is, e) ↦ elim (frame_sent_lem rtos a q stats frame ticks h p bs _ is fits refl) [
        | inl queued ↦ inl (subst (IsQueued rtos q stats frame bs h) (sym e) queued)
        | inr (full, refused) ↦ inr (inl (full, e ∙ refused))
      ]
    ]
