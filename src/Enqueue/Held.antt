-- ===== src/Enqueue/Held.antt =====
-- The queue after `aetus_enqueue_signal_frame` in
-- firmware/esp32-aetus/components/aetus/aetus.c: each item keeps the memory it needs to be encoded
-- and released.
use aetus.Base.{
  ℕ, zero, suc, ◌+◌, ◌≤◌, ◌≡◌, ◌≢◌, ◌⊎◌, refl, sym, ap, subst, ◌∙◌, inl, inr, Option, none, some,
  List, [], ◌∷◌, ◌++◌, arith, All-append, length, take, length-take, some-none,
}
use mathlib.Core.List.{append_assoc, append-nil}
use aetus.Types.{Ptr, Metric, SignalFrame, SignalChannel, SignalPoolStats, QueueItem, signal_frame}
use aetus.Esp.{EspErr, esp_ok, no_mem, timeout}
use aetus.Heap.{Heap, Allocator, Run, done, block, bytes, write, sample_header_size}
use aetus.Heap.Write.{write_same, write_ne}
use aetus.SignalPool.{note_alloc, note_failure}
use aetus.Frame.Size.{IsSendable, AreNamed}
use aetus.Rtos.{RtosQueue}
use aetus.Enqueue.{Outcome, enqueue_signal_frame}
use aetus.Enqueue.Memory.{enqueue_signal_frame-outcome, IsQueued, samples_of}
use aetus.Uploader.Owned.{
  IsOutside, AreApart, Agrees, Blobs, stop, plain, blob, Owns, of_status, of_frame, of_inline,
  of_heap, Holds, nothing, first, Holds-Agrees, front, back,
}

-- A block that is free is none of those in use.
Blobs-IsOutside :
    {h : Heap} (p : Ptr) {n : ℕ} {ms : List Metric} {ps : List Ptr}
    → h p ≡ none
    → Blobs h n ms ps
    → IsOutside p ps
Blobs-IsOutside p free stop = tt
Blobs-IsOutside p free (plain e b) = Blobs-IsOutside p free b
Blobs-IsOutside {h} p free (blob k bs e ne at readable out b) =
    (λ same. some-none at (ap h (sym same) ∙ free), Blobs-IsOutside p free b)

Owns-IsOutside :
    {h : Heap} (p : Ptr) {x : QueueItem} {ps : List Ptr} → h p ≡ none → Owns h x ps → IsOutside p ps
Owns-IsOutside p free of_status = tt
Owns-IsOutside {h} p free (of_frame n m bs ne at same fits channels) =
    (λ same. some-none at (ap h (sym same) ∙ free), tt)
Owns-IsOutside p free (of_inline e few b) = Blobs-IsOutside p free b
Owns-IsOutside {h} p free (of_heap {ps} {qs} n ms ne at fits few b c apart out out') = (
  λ same. some-none at (ap h (sym same) ∙ free),
  All-append (λ q. p ≢ q) ps qs (Blobs-IsOutside p free b) (Blobs-IsOutside p free c),
)

Holds-IsOutside :
    {h : Heap} (p : Ptr) {xs : List QueueItem} {ps : List Ptr}
    → h p ≡ none
    → Holds h xs ps
    → IsOutside p ps
Holds-IsOutside p free nothing = tt
Holds-IsOutside p free (first {ps} {qs} o rest apart) =
    All-append (λ q. p ≢ q) ps qs (Owns-IsOutside p free o) (Holds-IsOutside p free rest)

-- A write to a block that is free leaves those in use as they are.
write-Agrees :
    (h : Heap) (p : Ptr) (b : Option _) (ps : List Ptr) → IsOutside p ps → Agrees h (write h p b) ps
write-Agrees h p b [] out = tt
write-Agrees h p b (q ∷ ps) out =
    (write_ne h p q b (λ same. out.0 (sym same)), write-Agrees h p b ps out.1)

apart-front : (us ps qs : List Ptr) → AreApart us (ps ++ qs) → AreApart us ps
apart-front [] ps qs a = tt
apart-front (u ∷ us) ps qs a = (front (λ q. u ≢ q) ps qs a.0, apart-front us ps qs a.1)

apart-back : (us ps qs : List Ptr) → AreApart us (ps ++ qs) → AreApart us qs
apart-back [] ps qs a = tt
apart-back (u ∷ us) ps qs a = (back (λ q. u ≢ q) ps qs a.0, apart-back us ps qs a.1)

-- An item whose blocks are none of those in use is added at the end.
Holds-append :
    {h : Heap} {x : QueueItem} {us : List Ptr} {xs : List QueueItem} {ps : List Ptr}
    → Holds h xs ps
    → Owns h x us
    → AreApart us ps
    → Holds h (xs ++ x ∷ []) (ps ++ us)
Holds-append {h} {x} {us} nothing owns apart =
    subst (Holds h (x ∷ [])) (append-nil us) (first owns nothing tt)
Holds-append {h} {x} {us} (first {ps} {qs} o rest away) owns apart =
    subst (Holds h _) (sym (append_assoc ps qs us)) (
      first o (Holds-append rest owns (apart-back us ps qs apart))
        (All-append (λ p. IsOutside p ps) qs us away (apart-front us ps qs apart)))

-- Enough channels for the names that are looked at.
AreNamed-length : (n : ℕ) (cs : List SignalChannel) → AreNamed n cs → n ≤ length cs
AreNamed-length zero cs named = omega arith
AreNamed-length (suc n) [] named = absurd named
AreNamed-length (suc n) (c ∷ cs) named = omega (arith, AreNamed-length n cs named.1)

module _ (rtos : RtosQueue) where
  -- The items stay, or the frame is added to them, with a block for its samples.
  abbrev pub IsGrown : rtos.Queue → SignalFrame → rtos.Queue → Type 0
  IsGrown old frame q =
      (rtos.items q ≡ rtos.items old)
      ⊎ ((p : Ptr) × (rtos.items q
            ≡ rtos.items old ++ signal_frame (record frame { samples = p }) p ∷ []))

  -- A run that ends, with a queue that has grown and whose items hold their blocks.
  abbrev pub EndsHeld : rtos.Queue → SignalFrame → Run (Outcome rtos) → Type 0
  EndsHeld old frame run =
      (code : EspErr) × (q : rtos.Queue) × (stats : SignalPoolStats) × (g : Heap) × (ps : List Ptr)
      × (run ≡ done (code, some q, stats) g)
      × IsGrown old frame q
      × Holds g (rtos.items q) ps

  queued-EndsHeld :
      (q : rtos.Queue) (stats : SignalPoolStats) (frame : SignalFrame) (bs : List ℕ) (h : Heap)
      (ps : List Ptr) (run : Run (Outcome rtos))
      → IsSendable frame
      → frame.samples_size ≤ length bs
      → Holds h (rtos.items q) ps
      → IsQueued rtos q stats frame bs h run
      → EndsHeld q frame run
  queued-EndsHeld q stats frame bs h ps run sendable fits held
        (p, g, q', ends, items, loads, is, same) =
      let size = frame.samples_size in
      let g' = write h p (samples_of frame bs) in
      let outside = Holds-IsOutside p is.was_free held in
      let owns : Owns g' (signal_frame (record frame { samples = p }) p) (p ∷ []) =
        of_frame (sample_header_size + size) size (take size bs) is.ne_null
          (write_same h p (samples_of frame bs)) refl (omega (arith, length-take size bs, fits))
          (omega (arith, AreNamed-length frame.channel_count frame.channels sendable.named)) in
      let all : Holds g' (rtos.items q ++ signal_frame (record frame { samples = p }) p ∷ [])
          (ps ++ p ∷ []) =
        Holds-append (Holds-Agrees g' (write-Agrees h p (samples_of frame bs) ps outside) held) owns
          (outside, tt) in
      (
        esp_ok,
        q',
        note_alloc stats size,
        g',
        ps ++ p ∷ [],
        subst (λ k. run ≡ done (esp_ok, some q', note_alloc stats size) k) same ends,
        inr (p, items),
        subst (λ xs. Holds g' xs (ps ++ p ∷ [])) (sym items) all,
      )

-- On a queue whose items own their blocks, with a frame that is sendable and has its samples in
-- memory, the call returns without a fault. The items of the queue are then as before, or the frame
-- is added to them, with a block for its samples; and they own their blocks, none of which two of
-- them share.
pub enqueue_signal_frame-EndsHeld :
    (rtos : RtosQueue) (a : Allocator) (q : rtos.Queue) (stats : SignalPoolStats)
    (frame : SignalFrame) (ticks : ℕ) (h : Heap) (bs : List ℕ) {n : ℕ} (ps : List Ptr)
    → IsSendable frame
    → h frame.samples ≡ block n (bytes bs)
    → frame.samples_size ≤ length bs
    → Holds h (rtos.items q) ps
    → EndsHeld rtos q frame (enqueue_signal_frame rtos a (some q) stats (some frame) ticks h)
enqueue_signal_frame-EndsHeld rtos a q stats frame ticks h bs ps sendable there fits held =
    elim (enqueue_signal_frame-outcome rtos a q stats frame ticks h bs sendable there fits) [
      | inl queued ↦ queued-EndsHeld rtos q stats frame bs h ps _ sendable fits held queued
      | inr (inl (filled, refused)) ↦ (timeout, q, _, h, ps, refused, inl refl, held)
      | inr (inr (none_left, full)) ↦ (no_mem, q, note_failure stats, h, ps, full, inl refl, held)
    ]
