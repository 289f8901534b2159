-- ===== src/Uploader/Owned.antt =====
-- The memory that the items of the queue own: what each one needs to be encoded and released, apart
-- from what the others own.
use aetus.Base.{
  ℕ, zero, suc, ◌*◌, ◌≤◌, ◌<◌, ◌≡◌, ◌≢◌, refl, ◌∙◌, true, false, none, List, [], ◌∷◌, ◌++◌, All,
  length, min,
}
use aetus.Types.{
  Ptr, null, Status, Metric, MetricType, string_value, bytes_value, Telemetry, SignalFrame,
  QueueItem, telemetry, status, signal_frame, max_metrics, inline_metrics_max, channels_max,
}
use aetus.CString.{c_str}
use aetus.Heap.{Heap, block, bytes, metrics, sample_block, metric_size, write}
use aetus.Heap.Write.{write_ne}
use aetus.Telemetry.{owns_blob, heap_count}

-- A pointer that is none of the others, and pointers of which none is.
abbrev pub IsOutside : Ptr → List Ptr → Type 0
IsOutside p ps = All (λ q. p ≢ q) ps

abbrev pub AreApart : List Ptr → List Ptr → Type 0
AreApart ps qs = All (λ p. IsOutside p qs) ps

-- The memory without some blocks.
unfoldable pub erase : List Ptr → Heap → Heap
erase [] h = h
erase (p ∷ ps) h = erase ps (write h p none)

pub erase-outside : (q : Ptr) (ps : List Ptr) (h : Heap) → IsOutside q ps → erase ps h q ≡ h q
unfolding erase
erase-outside q [] h out = refl
erase-outside q (p ∷ ps) h out =
    erase-outside q ps (write h p none) out.1 ∙ write_ne h p q none out.0

-- A buffer that a string or bytes can be read from.
abbrev pub IsReadable : MetricType → ℕ → List ℕ → Type 0
IsReadable string_value n bs = length (c_str bs) < length bs
IsReadable bytes_value n bs = n ≤ length bs
IsReadable _ n bs = Unit

-- The blobs of the first `n` metrics of an array, each in a block of its own.
pub data Blobs (h : Heap) : ℕ → List Metric → List Ptr → Type 0 where
  stop : {ms : List Metric} → Blobs h zero ms []
  plain :
      {n : ℕ} {m : Metric} {ms : List Metric} {ps : List Ptr}
      → owns_blob m ≡ false
      → Blobs h n ms ps
      → Blobs h (suc n) (m ∷ ms) ps
  blob :
      {n : ℕ} {m : Metric} {ms : List Metric} {ps : List Ptr} (k : ℕ) (bs : List ℕ)
      → owns_blob m ≡ true
      → m.value ≢ null
      → h m.value ≡ block k (bytes bs)
      → IsReadable m.type m.blob_size bs
      → IsOutside m.value ps
      → Blobs h n ms ps
      → Blobs h (suc n) (m ∷ ms) (m.value ∷ ps)

-- The blocks of an item, in the memory.
pub data Owns (h : Heap) : QueueItem → List Ptr → Type 0 where
  of_status : {s : Status} → Owns h (status s) []
  of_frame :
      {frame : SignalFrame} {owner : Ptr} (n m : ℕ) (bs : List ℕ)
      → owner ≢ null
      → h owner ≡ block n (sample_block m bs)
      → frame.samples ≡ owner
      → frame.samples_size ≤ length bs
      → min frame.channel_count channels_max ≤ length frame.channels
      → Owns h (signal_frame frame owner) (owner ∷ [])
  of_inline :
      {t : Telemetry} {ps : List Ptr}
      → t.heap_metrics ≡ null
      → t.metric_count ≤ inline_metrics_max
      → Blobs h (min t.metric_count inline_metrics_max) t.inline_metrics ps
      → Owns h (telemetry t) ps
  of_heap :
      {t : Telemetry} {ps qs : List Ptr} (n : ℕ) (ms : List Metric)
      → t.heap_metrics ≢ null
      → h t.heap_metrics ≡ block n (metrics ms)
      → length ms * metric_size ≤ n
      → t.metric_count ≤ max_metrics
      → Blobs h (min t.metric_count inline_metrics_max) t.inline_metrics ps
      → Blobs h (heap_count t.metric_count) ms qs
      → AreApart qs ps
      → IsOutside t.heap_metrics ps
      → IsOutside t.heap_metrics qs
      → Owns h (telemetry t) (t.heap_metrics ∷ ps ++ qs)

-- What does not change where its blocks do not.
abbrev pub Agrees : Heap → Heap → List Ptr → Type 0
Agrees h k ps = All (λ p. k p ≡ h p) ps

pub Blobs-Agrees :
    {h : Heap} (k : Heap) {n : ℕ} {ms : List Metric} {ps : List Ptr}
    → Agrees h k ps
    → Blobs h n ms ps
    → Blobs k n ms ps
Blobs-Agrees k a stop = stop
Blobs-Agrees k a (plain none_owned b) = plain none_owned (Blobs-Agrees k a b)
Blobs-Agrees k a (blob n bs owned ne at readable out b) =
    blob n bs owned ne (a.0 ∙ at) readable out (Blobs-Agrees k a.1 b)

pub front : {A : Type 0} (Q : A → Type 0) (xs ys : List A) → All Q (xs ++ ys) → All Q xs
front Q [] ys h = tt
front Q (x ∷ xs) ys h = (h.0, front Q xs ys h.1)

pub back : {A : Type 0} (Q : A → Type 0) (xs ys : List A) → All Q (xs ++ ys) → All Q ys
back Q [] ys h = h
back Q (x ∷ xs) ys h = back Q xs ys h.1

Owns-Agrees :
    {h : Heap} (k : Heap) {x : QueueItem} {ps : List Ptr}
    → Agrees h k ps
    → Owns h x ps
    → Owns k x ps
Owns-Agrees k a of_status = of_status
Owns-Agrees k a (of_frame n m bs ne at same fits channels) =
    of_frame n m bs ne (a.0 ∙ at) same fits channels
Owns-Agrees k a (of_inline e few b) = of_inline e few (Blobs-Agrees k a b)
Owns-Agrees {h} k a (of_heap {ps} {qs} n ms ne at fits few b c apart out out') =
    of_heap n ms ne (a.0 ∙ at) fits few (Blobs-Agrees k (front (λ p. k p ≡ h p) ps qs a.1) b)
      (Blobs-Agrees k (back (λ p. k p ≡ h p) ps qs a.1) c) apart out out'

-- Items whose blocks are apart from each other.
pub data Holds (h : Heap) : List QueueItem → List Ptr → Type 0 where
  nothing : Holds h [] []
  first :
      {x : QueueItem} {xs : List QueueItem} {ps qs : List Ptr}
      → Owns h x ps
      → Holds h xs qs
      → AreApart qs ps
      → Holds h (x ∷ xs) (ps ++ qs)

pub Holds-Agrees :
    {h : Heap} (k : Heap) {xs : List QueueItem} {ps : List Ptr}
    → Agrees h k ps
    → Holds h xs ps
    → Holds k xs ps
Holds-Agrees k a nothing = nothing
Holds-Agrees {h} k a (first {ps} {qs} o r apart) =
    first (Owns-Agrees k (front (λ p. k p ≡ h p) ps qs a) o)
      (Holds-Agrees k (back (λ p. k p ≡ h p) ps qs a) r) apart
