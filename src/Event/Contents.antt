-- ===== src/Event/Contents.antt =====
-- What the events of firmware/esp32-aetus/components/aetus/aetus.c contain.
use aetus.Base.{
  Bool-cases, ◌==◌, ◌<◌, ℕ, zero, suc, ◌≤◌, ◌≡◌, refl, sym, subst, ◌≢◌, ◌⊎◌, inl, inr, ◌+◌,
  take-append, map-append, min, some, List, [], ◌∷◌, ◌++◌, map, arith, length, take, replicate,
}
use aetus.Types.{Ptr, null, Metric, MetricType, Telemetry, max_metrics, inline_metrics_max}
use aetus.CString.{IsText, c_str, copy_string}
use aetus.Telemetry.{heap_count}
use aetus.CString.Copy.{c_str-copy_string}
use aetus.Heap.{Heap, done, block, metrics}
use aetus.Heap.Write.{load_metrics-done}
use aetus.Event.{
  WireValue, WireMetric, wire_value, Source, fill_event_header, fill_metric, fill_range,
}
use aetus.Event.Callbacks.{Nanopb, encode_string_callback, encode_bytes_callback}
use aetus.Event.Encode.{fill_metrics, fill_heap_range}

-- The event carries the device id of the configuration cut to 31 bytes.
pub fill_event_header-device_id :
    (ctx : Source) (id : List ℕ)
    → ctx.device_id ≡ some id
    → IsText id
    → c_str (fill_event_header ctx).device_id ≡ take 31 id
unfolding fill_event_header
fill_event_header-device_id ctx id e text =
    subst (λ d. c_str (copy_string (replicate 32 0) 32 d) ≡ take 31 id) (sym e)
      (c_str-copy_string (replicate 32 0) 32 id refl (omega arith) text)

pub fill_range_lem :
    (pb : Nanopb) (n : ℕ) (ms : List Metric) (h : Heap)
    → n ≤ length ms
    → fill_range pb n ms h ≡ done (map (fill_metric pb) (take n ms)) h
unfolding fill_range
fill_range_lem pb zero ms h le = refl
fill_range_lem pb (suc n) [] h le = absurd (omega arith)
fill_range_lem pb (suc n) (m ∷ ms) h le = rw (fill_range_lem pb n ms h (omega arith))

-- An array of metrics that a pointer leads to; there is none at `NULL`.
unfoldable pub PointsTo : Heap → Ptr → List Metric → Type 0
PointsTo h p ms = ((p ≡ null) × (ms ≡ [])) ⊎ ((p ≢ null) × (n : ℕ) × (h p ≡ block n (metrics ms)))

pub fill_heap_range_lem :
    (pb : Nanopb) (n : ℕ) (p : Ptr) (ms : List Metric) (h : Heap)
    → PointsTo h p ms
    → n ≤ length ms
    → fill_heap_range pb n p h ≡ done (map (fill_metric pb) (take n ms)) h
unfolding fill_heap_range PointsTo
fill_heap_range_lem pb zero p ms h has le = refl
fill_heap_range_lem pb (suc n) p ms h (inl (e, z)) le = absurd (ground arith)
fill_heap_range_lem pb (suc n) p ms h (inr (ne, k, at)) le =
    rw (load_metrics-done h p ne at, fill_range_lem pb (suc n) ms h le)

fill_metrics-map :
    (pb : Nanopb) (t : Telemetry) (ms : List Metric) (h : Heap)
    → length t.inline_metrics ≡ inline_metrics_max
    → PointsTo h t.heap_metrics ms
    → min t.metric_count max_metrics ≤ inline_metrics_max + length ms
    → fill_metrics pb t h
      ≡ done
          (map (fill_metric pb) (take (min t.metric_count max_metrics) (t.inline_metrics ++ ms)))
          h
unfolding fill_metrics
fill_metrics-map pb t ms h len has le =
    let n = min t.metric_count max_metrics in
    rw (
      fill_range_lem pb (min t.metric_count inline_metrics_max) t.inline_metrics h (omega arith),
      fill_heap_range_lem pb (heap_count n) t.heap_metrics ms h has (ground arith),
      take-append n (min t.metric_count inline_metrics_max) (heap_count n) t.inline_metrics ms
          (omega arith) (ground arith),
      map-append (fill_metric pb) (take (min t.metric_count inline_metrics_max) t.inline_metrics)
          (take (heap_count n) ms),
    )

IsText-c_str : (s : List ℕ) → IsText (c_str s)
unfolding c_str
IsText-c_str [] = tt
IsText-c_str (c ∷ s) = elim (Bool-cases (c == 0)) [
  | inl e ↦ rw e tt
  | inr e ↦ let pos : 0 < c = ground arith in rw e (pos, IsText-c_str s)
]

-- The value of a metric as the event has it: the number, or a callback that reads the blob.
pub data IsValue (pb : Nanopb) (m : Metric) : WireValue pb → Type 0 where
  whole : m.type ≡ MetricType.int64_value → IsValue pb m (WireValue.int_value m.value)
  double : m.type ≡ MetricType.double_value → IsValue pb m (WireValue.double_value m.value)
  truth : m.type ≡ MetricType.bool_value → IsValue pb m (WireValue.bool_value m.value)
  text :
      m.type ≡ MetricType.string_value
      → IsValue pb m (WireValue.string_value (encode_string_callback pb m.value))
  blob :
      m.type ≡ MetricType.bytes_value
      → IsValue pb m (WireValue.bytes_value (encode_bytes_callback pb m.value m.blob_size))
  other : (n : ℕ) → m.type ≡ MetricType.unknown n → IsValue pb m (WireValue.double_value m.value)

-- A metric of an event that stands for one of the telemetry: the arrays have room for a text of 19 and
-- of 7 bytes.
pub record Carries (pb : Nanopb) (m : Metric) (w : WireMetric pb) : Type 0 where
  pub key : c_str w.key ≡ take 19 (c_str m.key)
  pub unit : c_str w.unit ≡ take 7 (c_str m.unit)
  pub value : IsValue pb m w.value

-- One for each, in their order.
pub data CarriesAll (pb : Nanopb) : List Metric → List (WireMetric pb) → Type 0 where
  end : CarriesAll pb [] []
  and :
      {m : Metric} {ms : List Metric} {w : WireMetric pb} {ws : List (WireMetric pb)}
      → Carries pb m w
      → CarriesAll pb ms ws
      → CarriesAll pb (m ∷ ms) (w ∷ ws)

wire-IsValue :
    (pb : Nanopb) (m : Metric) (type : MetricType)
    → m.type ≡ type
    → IsValue pb m (wire_value pb m type)
wire-IsValue pb m MetricType.int64_value e = whole e
wire-IsValue pb m MetricType.double_value e = double e
wire-IsValue pb m MetricType.bool_value e = truth e
wire-IsValue pb m MetricType.string_value e = text e
wire-IsValue pb m MetricType.bytes_value e = blob e
wire-IsValue pb m (MetricType.unknown n) e = other n e

fill_metric-Carries : (pb : Nanopb) (m : Metric) → Carries pb m (fill_metric pb m)
unfolding fill_metric
fill_metric-Carries pb m = record {
  key = c_str-copy_string (replicate 20 0) 20 (c_str m.key) refl (omega arith) (IsText-c_str m.key);
  unit =
      c_str-copy_string (replicate 8 0) 8 (c_str m.unit) refl (omega arith) (IsText-c_str m.unit);
  value = wire-IsValue pb m m.type refl;
}

map-CarriesAll : (pb : Nanopb) (ms : List Metric) → CarriesAll pb ms (map (fill_metric pb) ms)
map-CarriesAll pb [] = end
map-CarriesAll pb (m ∷ ms) = and (fill_metric-Carries pb m) (map-CarriesAll pb ms)

-- If the arrays hold the metrics that a telemetry counts, its event carries them in their order,
-- first the inline array and then the block, at most 32 of them, and the memory is as before. Each
-- has the key cut to 19 bytes, the unit cut to 7, and the value of its type, a blob as a callback that
-- reads it.
pub fill_metrics_lem :
    (pb : Nanopb) (t : Telemetry) (ms : List Metric) (h : Heap)
    → length t.inline_metrics ≡ inline_metrics_max
    → PointsTo h t.heap_metrics ms
    → min t.metric_count max_metrics ≤ inline_metrics_max + length ms
    → (ws : List (WireMetric pb)) × (fill_metrics pb t h ≡ done ws h)
      × CarriesAll pb (take (min t.metric_count max_metrics) (t.inline_metrics ++ ms)) ws
fill_metrics_lem pb t ms h len has le =
    (_, fill_metrics-map pb t ms h len has le, map-CarriesAll pb _)
