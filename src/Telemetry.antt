-- ===== src/Telemetry.antt =====
-- Telemetry in firmware/esp32-aetus/components/aetus/aetus.c: `aetus_telemetry_init`,
-- `append_metric`, the `aetus_telemetry_add_*` functions and `aetus_telemetry_deinit`. The first
-- four metrics stand in the structure and the others in a block. `in_isr` is what
-- `xPortInIsrContext` answers. A function returns its error code and the caller's structure.
pub mod Checks
use aetus.Base.{
  ℕ, zero, suc, ◌+◌, ◌-◌, ◌*◌, ◌%◌, min, Bool, true, false, not, ◌&&◌, Option, none, some, List, [],
  ◌∷◌, ◌++◌, ltb, leb, ◌==◌, if◌then◌else◌, get_elem?, set, take, replicate, length,
}
use aetus.Types.{
  null, Metric, MetricType, int64_value, double_value, bool_value, string_value, bytes_value,
  Telemetry, zero_metric, zero_telemetry, max_metrics, inline_metrics_max, metric_key_max,
  metric_unit_max, u32_mod,
}
use Checks.{append_checks}
use aetus.Esp.{EspErr, esp_ok, invalid_arg, no_mem, Result, ok, err}
use aetus.CString.{CStr, copy_string}
use aetus.Heap.{
  Allocator, M, pure, failed, ◌>>=◌, ◌>>◌, malloc, free, store, load_metrics, metrics, bytes,
  metric_size,
}

-- The metrics that do not fit the structure.
abbrev pub heap_slots : ℕ
heap_slots = max_metrics - inline_metrics_max

unfoldable pub telemetry_init : Option Telemetry → Option Telemetry
telemetry_init none = none
telemetry_init (some t) = some (record zero_telemetry { capacity = inline_metrics_max })

-- `m->type == AETUS_METRIC_VALUE_STRING || m->type == AETUS_METRIC_VALUE_BYTES`
abbrev pub is_blob_type : MetricType → Bool
is_blob_type string_value = true
is_blob_type bytes_value = true
is_blob_type _ = false

-- A metric that owns a block.
abbrev pub owns_blob : Metric → Bool
owns_blob m = is_blob_type m.type && not (m.value == null)

-- The bytes that a buffer holds.
abbrev pub buffer : Option (List ℕ) → List ℕ
buffer none = []
buffer (some bs) = bs

-- A read or a write at an index of an array.
abbrev pub element : Option Metric → M Metric
element none = failed
element (some m) = pure m

unfoldable pub load_metric : Telemetry → ℕ → M Metric
load_metric t i =
    if ltb i inline_metrics_max
    then element (get_elem? t.inline_metrics i)
    else do ms ← load_metrics t.heap_metrics; element (get_elem? ms (i - inline_metrics_max))

unfoldable pub store_metric : Telemetry → ℕ → Metric → M Telemetry
store_metric t i m =
    if ltb i inline_metrics_max
    then pure (record t { inline_metrics = set t.inline_metrics i m })
    else do
      ms ← load_metrics t.heap_metrics
      store t.heap_metrics (metrics (set ms (i - inline_metrics_max) m))
      pure t

-- The block for the metrics beyond the fourth, unless there is one or none is needed yet.
unfoldable pub reserve_heap_metrics : Allocator → Bool → Telemetry → M (Result Telemetry)
reserve_heap_metrics a in_isr t =
    if leb inline_metrics_max t.metric_count && t.heap_metrics == null
    then (if in_isr then pure (err invalid_arg) else do
      p ← malloc a (heap_slots * metric_size)
      if p == null then pure (err no_mem) else do
        store p (metrics (replicate heap_slots zero_metric))
        pure (ok (record t { heap_metrics = p; capacity = max_metrics })))
    else pure (ok t)

-- `key` and `unit` of a metric that was cleared.
unfoldable pub named_metric : (key unit : CStr) → Metric
named_metric key unit = record zero_metric {
  key = copy_string zero_metric.key metric_key_max key;
  unit = copy_string zero_metric.unit metric_unit_max unit;
}

-- The next steps, if there was no error so far.
abbrev pub on_ok : {A B : Type 0} → Result A → (A → M (Result B)) → M (Result B)
on_ok (ok x) k = k x
on_ok (err e) k = pure (err e)

-- The new structure, and the index of the new metric. An error leaves the structure unchanged.
unfoldable pub append_metric :
    Allocator → Bool → Option Telemetry → (key unit : CStr) → M (Result (Telemetry × ℕ))
append_metric a in_isr telemetry key unit = on_ok (append_checks telemetry key unit) λ t. do
  reserved ← reserve_heap_metrics a in_isr t
  on_ok reserved λ t'. do
    t'' ← store_metric t' t'.metric_count (named_metric key unit)
    pure (ok (record t'' { metric_count = t''.metric_count + 1 }, t'.metric_count))

-- The rest of a function of the API after `append_metric`.
abbrev pub after_append :
    Result (Telemetry × ℕ)
    → Option Telemetry
    → (Telemetry → ℕ → M (EspErr × Option Telemetry))
    → M (EspErr × Option Telemetry)
after_append (ok (t, i)) old k = k t i
after_append (err e) old k = pure (e, old)

-- The metric at the index, given its type and the bits of its value.
unfoldable pub set_value : Telemetry → ℕ → MetricType → ℕ → M (EspErr × Option Telemetry)
set_value t i type value = do
  m ← load_metric t i
  t' ← store_metric t i (record m { type = type; value = value })
  pure (esp_ok, some t')

-- The bits of a `bool`.
abbrev pub bool_bits : Bool → ℕ
bool_bits true = 1
bool_bits false = 0

module _ (a : Allocator) (in_isr : Bool) (telemetry : Option Telemetry) (key : CStr) where
  unfoldable pub telemetry_add_int64 : (value : ℕ) (unit : CStr) → M (EspErr × Option Telemetry)
  telemetry_add_int64 value unit = do
    r ← append_metric a in_isr telemetry key unit
    after_append r telemetry λ t i. set_value t i int64_value value

  unfoldable pub telemetry_add_double : (value : ℕ) (unit : CStr) → M (EspErr × Option Telemetry)
  telemetry_add_double value unit = do
    r ← append_metric a in_isr telemetry key unit
    after_append r telemetry λ t i. set_value t i double_value value

  unfoldable pub telemetry_add_bool : (value : Bool) (unit : CStr) → M (EspErr × Option Telemetry)
  telemetry_add_bool value unit = do
    r ← append_metric a in_isr telemetry key unit
    after_append r telemetry λ t i. set_value t i bool_value (bool_bits value)

  -- A metric whose block could not be allocated is taken back.
  drop_metric : Telemetry → ℕ → M (EspErr × Option Telemetry)
  drop_metric t i = do
    t' ← store_metric (record t { metric_count = t.metric_count - 1 }) i zero_metric
    pure (no_mem, some t')

  -- A block of `size` bytes with the content, and the metric at the index that owns it.
  set_blob :
      Telemetry → ℕ → MetricType → (size blob_size : ℕ) → List ℕ → M (EspErr × Option Telemetry)
  unfolding drop_metric
  set_blob t i type size blob_size content = do
    p ← malloc a size
    if p == null then drop_metric t i else do
      store p (bytes content)
      m ← load_metric t i
      t' ← store_metric t i (record m { type = type; value = p; blob_size = blob_size })
      pure (esp_ok, some t')

  -- `value` is a buffer of at least `value_size` bytes, or `NULL`.
  unfoldable pub telemetry_add_string_n :
      (value : Option (List ℕ)) (value_size : ℕ) (unit : CStr) → M (EspErr × Option Telemetry)
  unfolding set_blob
  telemetry_add_string_n none (suc n) unit = pure (invalid_arg, telemetry)
  telemetry_add_string_n value value_size unit = do
    r ← append_metric a in_isr telemetry key unit
    after_append r telemetry λ t i.
        set_blob t i string_value ((value_size + 1) % u32_mod) value_size
          (take value_size (buffer value) ++ 0 ∷ [])

  unfoldable pub telemetry_add_string : (value : CStr) (unit : CStr) → M (EspErr × Option Telemetry)
  unfolding telemetry_add_string_n
  telemetry_add_string none unit = pure (invalid_arg, telemetry)
  telemetry_add_string (some value) unit = telemetry_add_string_n (some value) (length value) unit

  unfoldable pub telemetry_add_bytes :
      (value : Option (List ℕ)) (value_size : ℕ) (unit : CStr) → M (EspErr × Option Telemetry)
  unfolding set_blob
  telemetry_add_bytes none (suc n) unit = pure (invalid_arg, telemetry)
  telemetry_add_bytes value zero unit = do
    r ← append_metric a in_isr telemetry key unit
    after_append r telemetry λ t i. set_value t i bytes_value null
  telemetry_add_bytes (some value) (suc n) unit = do
    r ← append_metric a in_isr telemetry key unit
    after_append r telemetry λ t i. set_blob t i bytes_value (suc n) (suc n) (take (suc n) value)

-- The loop that frees the blobs of the first `n` metrics of an array.
unfoldable pub free_blobs : ℕ → List Metric → M (Unit {0})
free_blobs zero ms = pure tt
free_blobs (suc n) [] = failed
free_blobs (suc n) (m ∷ ms) = (if owns_blob m then free m.value else pure tt) >> free_blobs n ms

-- `count > AETUS_TELEMETRY_INLINE_METRICS ? count - AETUS_TELEMETRY_INLINE_METRICS : 0`
abbrev pub heap_count : ℕ → ℕ
heap_count count = if ltb inline_metrics_max count then count - inline_metrics_max else 0

unfoldable pub telemetry_deinit : Option Telemetry → M (Option Telemetry)
unfolding free_blobs
telemetry_deinit none = pure none
telemetry_deinit (some t) = do
  free_blobs (min t.metric_count inline_metrics_max) t.inline_metrics
  if t.heap_metrics == null then pure (some zero_telemetry) else do
    ms ← load_metrics t.heap_metrics
    free_blobs (heap_count t.metric_count) ms
    free t.heap_metrics
    pure (some zero_telemetry)
