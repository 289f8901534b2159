-- ===== src/Uploader/Encodes.antt =====
-- The encoding of an item that owns its blocks: no callback of its event faults, and neither does the
-- encoding, for an encoder that only reads memory through the callbacks.
use aetus.Base.{
  ℕ, zero, suc, ◌≤◌, ◌<◌, ◌≡◌, ◌≢◌, refl, sym, ap, ◌∙◌, false, not, ◌&&◌, Option, none, some, List,
  [], ◌∷◌, ◌++◌, arith, ◌==◌, ne-==, ==_iff, All, All-append, length, min, take,
}
use aetus.Types.{
  Ptr, null, Metric, MetricType, string_value, bytes_value, Telemetry, SignalFrame, SignalChannel,
  QueueItem, telemetry, inline_metrics_max, max_metrics, channels_max,
}
use aetus.Esp.{Result, ok, err}
use aetus.CString.{c_str}
use aetus.Heap.{Heap, block, bytes, metrics, sample_block, M, done, load_c_str, load_bytes}
use aetus.Heap.Write.{load_metrics-done, load_bytes-done}
use aetus.Frame.{validate_signal_frame}
use aetus.Telemetry.{is_blob_type, heap_count}
use aetus.Event.{
  Event, telemetry_event, Body, Source, metric_set, frame_payload, status_payload, WireMetric,
  WireValue, fill_metric, fill_range, wire_value,
}
use aetus.Event.Callbacks.{
  Nanopb, Callback, tagged, write_rest, wire_channel, encode_string_callback, encode_bytes_callback,
  encode_channels, encode_signal_channels_callback,
}
use aetus.Event.Encode.{
  Encoder, event, run_encode, encode_valid, fill_metrics, fill_heap_range, signal_payload,
  encode_telemetry, encode_signal_frame, encode_status, encode_queue_item,
}
use aetus.Uploader.Owned.{
  IsReadable, Blobs, stop, plain, blob, Owns, of_status, of_frame, of_inline, of_heap,
}

module _ (pb : Nanopb) (h : Heap) where
  -- A callback that does not fault and leaves the memory.
  abbrev pub IsSafe : Callback pb → Type 0
  IsSafe callback =
      (stream : pb.Stream) (field : pb.Field)
      → (o : Option pb.Stream) × (callback stream field h ≡ done o h)

  abbrev pub IsSafeValue : WireValue pb → Type 0
  IsSafeValue (WireValue.string_value callback) = IsSafe callback
  IsSafeValue (WireValue.bytes_value callback) = IsSafe callback
  IsSafeValue _ = Unit

  abbrev pub IsSafeBody : Body pb → Type 0
  IsSafeBody (metric_set ms) = All (λ m. IsSafeValue m.value) ms
  IsSafeBody (frame_payload f) = IsSafe f.channels × IsSafe f.samples
  IsSafeBody (status_payload s) = Unit

-- nanopb reads memory through the callbacks alone: an encoding whose callbacks do not fault ends, with
-- the memory as it was.
abbrev pub ReadsOnly : (pb : Nanopb) → Encoder pb → Type 0
ReadsOnly pb enc =
    (stream : pb.Stream) (e : Event pb) (h : Heap)
    → IsSafeBody pb h e.body
    → (o : Option pb.Stream) × (enc.encode stream e h ≡ done o h)

load_c_str-done :
    (h : Heap) (p : Ptr) (k : ℕ) (bs : List ℕ)
    → p ≢ null
    → h p ≡ block k (bytes bs)
    → length (c_str bs) < length bs
    → load_c_str p h ≡ done (c_str bs) h
unfolding load_c_str
load_c_str-done h p k bs ne at lt = ground arith

module _ (pb : Nanopb) (h : Heap) where
  string-IsSafe :
      (p : Ptr) (k : ℕ) (bs : List ℕ)
      → p ≢ null
      → h p ≡ block k (bytes bs)
      → length (c_str bs) < length bs
      → IsSafe pb h (encode_string_callback pb p)
  unfolding encode_string_callback
  string-IsSafe p k bs ne at lt stream field = (
    tagged pb stream field (λ s. pb.encode_string s (c_str bs)),
    rw (ne-== p null ne, load_c_str-done h p k bs ne at lt) refl,
  )

  -- No string at `NULL` is the empty string; no bytes are a failure.
  null_string-IsSafe : (p : Ptr) → p ≡ null → IsSafe pb h (encode_string_callback pb p)
  unfolding encode_string_callback
  null_string-IsSafe p e stream field =
      (tagged pb stream field (λ s. pb.encode_string s []), rw ((==_iff p null).1 e) refl)

  null_bytes-IsSafe : (p : Ptr) (n : ℕ) → p ≡ null → IsSafe pb h (encode_bytes_callback pb p n)
  unfolding encode_bytes_callback
  null_bytes-IsSafe p n e stream field = (none, rw ((==_iff p null).1 e) refl)

  bytes-IsSafe :
      (p : Ptr) (n : ℕ) (bs : List ℕ)
      → p ≢ null
      → load_bytes p n h ≡ done bs h
      → IsSafe pb h (encode_bytes_callback pb p n)
  unfolding encode_bytes_callback
  bytes-IsSafe p n bs ne loads stream field =
      (tagged pb stream field (λ s. pb.encode_string s bs), rw (ne-== p null ne, loads) refl)

  value-IsSafe :
      (m : Metric) (type : MetricType) (k : ℕ) (bs : List ℕ)
      → m.value ≢ null
      → h m.value ≡ block k (bytes bs)
      → IsReadable type m.blob_size bs
      → IsSafeValue pb h (wire_value pb m type)
  value-IsSafe m MetricType.int64_value k bs ne at r = tt
  value-IsSafe m MetricType.double_value k bs ne at r = tt
  value-IsSafe m MetricType.bool_value k bs ne at r = tt
  value-IsSafe m string_value k bs ne at r = string-IsSafe m.value k bs ne at r
  value-IsSafe m bytes_value k bs ne at r =
      bytes-IsSafe m.value m.blob_size (take m.blob_size bs) ne
        (load_bytes-done h m.value m.blob_size ne at r)
  value-IsSafe m (MetricType.unknown n) k bs ne at r = tt

  -- A metric that owns no blob.
  plain-IsSafe :
      (m : Metric) (type : MetricType)
      → (is_blob_type type && not (m.value == null)) ≡ false
      → IsSafeValue pb h (wire_value pb m type)
  plain-IsSafe m MetricType.int64_value e = tt
  plain-IsSafe m MetricType.double_value e = tt
  plain-IsSafe m MetricType.bool_value e = tt
  plain-IsSafe m string_value e = null_string-IsSafe m.value (ground arith)
  plain-IsSafe m bytes_value e = null_bytes-IsSafe m.value m.blob_size (ground arith)
  plain-IsSafe m (MetricType.unknown n) e = tt

  fill_range-Blobs :
      (n : ℕ) (ms : List Metric) {ps : List Ptr}
      → Blobs h n ms ps
      → (ws : List (WireMetric pb)) × (fill_range pb n ms h ≡ done ws h)
        × All (λ w. IsSafeValue pb h w.value) ws
  unfolding fill_range fill_metric
  fill_range-Blobs zero ms stop = ([], refl, tt)
  fill_range-Blobs (suc n) [] b = elim b [ ]
  fill_range-Blobs (suc n) (m ∷ ms) (plain none_owned b) =
      let (ws, run, safe) = fill_range-Blobs n ms b in
      (fill_metric pb m ∷ ws, rw run refl, (plain-IsSafe m m.type none_owned, safe))
  fill_range-Blobs (suc n) (m ∷ ms) (blob k bs owned ne at readable out b) =
      let (ws, run, safe) = fill_range-Blobs n ms b in
      (fill_metric pb m ∷ ws, rw run refl, (value-IsSafe m m.type k bs ne at readable, safe))

  fill_heap_range-Blobs :
      (n : ℕ) (p : Ptr) (k : ℕ) (ms : List Metric) {ps : List Ptr}
      → p ≢ null
      → h p ≡ block k (metrics ms)
      → Blobs h n ms ps
      → (ws : List (WireMetric pb)) × (fill_heap_range pb n p h ≡ done ws h)
        × All (λ w. IsSafeValue pb h w.value) ws
  unfolding fill_heap_range
  fill_heap_range-Blobs zero p k ms ne at b = ([], refl, tt)
  fill_heap_range-Blobs (suc n) p k ms ne at b =
      let (ws, run, safe) = fill_range-Blobs (suc n) ms b in
      (ws, rw (load_metrics-done h p ne at) run, safe)

  fill_metrics-Owns :
      (t : Telemetry) {ps : List Ptr}
      → Owns h (telemetry t) ps
      → (ws : List (WireMetric pb)) × (fill_metrics pb t h ≡ done ws h)
        × All (λ w. IsSafeValue pb h w.value) ws
  unfolding fill_metrics fill_heap_range
  fill_metrics-Owns t (of_inline e few b) =
      let (ws, run, safe) =
        fill_range-Blobs (min t.metric_count inline_metrics_max) t.inline_metrics b in
      let no_more : heap_count (min t.metric_count max_metrics) ≡ 0 = ground arith in
      (ws ++ [], rw (run, no_more) refl, All-append (λ w. IsSafeValue pb h w.value) ws [] safe tt)
  fill_metrics-Owns t (of_heap n ms ne at fits few b c apart out out') =
      let (ws, run, safe) =
        fill_range-Blobs (min t.metric_count inline_metrics_max) t.inline_metrics b in
      let (vs, run', safe') =
        fill_heap_range-Blobs (heap_count t.metric_count) t.heap_metrics n ms ne at c in
      let all : heap_count (min t.metric_count max_metrics) ≡ heap_count t.metric_count =
        ap heap_count (omega arith) in
      (
        ws ++ vs,
        rw run (rw (all, run') refl),
        All-append (λ w. IsSafeValue pb h w.value) ws vs safe safe',
      )

  write_rest-done :
      (o : Option pb.Stream) (rest : pb.Stream → M (Option pb.Stream))
      → ((stream : pb.Stream) → (r : Option pb.Stream) × (rest stream h ≡ done r h))
      → (r : Option pb.Stream) × (write_rest pb o rest h ≡ done r h)
  write_rest-done none rest safe = (none, refl)
  write_rest-done (some stream) rest safe = safe stream

  channels-IsSafe :
      (n : ℕ) (channels : List SignalChannel)
      → n ≤ length channels
      → IsSafe pb h (encode_channels pb n channels)
  unfolding encode_channels
  channels-IsSafe zero channels le stream field = (some stream, refl)
  channels-IsSafe (suc n) [] le stream field = absurd (omega arith)
  channels-IsSafe (suc n) (c ∷ cs) le stream field =
      write_rest-done (tagged pb stream field λ s. pb.encode_channel s (wire_channel c))
        (λ stream'. encode_channels pb n cs stream' field)
        (λ stream'. channels-IsSafe n cs (omega arith) stream' field)

  samples-done :
      (p : Ptr) (size n m : ℕ) (bs : List ℕ)
      → p ≢ null
      → h p ≡ block n (sample_block m bs)
      → size ≤ length bs
      → load_bytes p size h ≡ done (take size bs) h
  unfolding load_bytes
  samples-done p size n m bs ne at le = ground arith

module _ (pb : Nanopb) (enc : Encoder pb) (reads : ReadsOnly pb enc) (h : Heap) where
  run_encode-done :
      (size : ℕ) (e : Event pb)
      → IsSafeBody pb h e.body
      → (r : Option (List ℕ)) × (run_encode pb enc size e h ≡ done r h)
  run_encode-done size e safe =
      let (o, run) = reads (enc.from_buffer size) e h safe in written o run
    where
      written :
          (o : Option pb.Stream)
          → enc.encode (enc.from_buffer size) e h ≡ done o h
          → (r : Option (List ℕ)) × (run_encode pb enc size e h ≡ done r h)
      written none run = (none, rw run refl)
      written (some stream) run = (some (enc.written stream), rw run refl)

  encode_valid-done :
      (ctx : Source) (frame : SignalFrame) (size : ℕ) (r : Result (Unit {0}))
      → IsSafeBody pb h (frame_payload (signal_payload pb enc frame))
      → (o : Option (List ℕ)) × (encode_valid pb enc ctx frame size r h ≡ done o h)
  encode_valid-done ctx frame size (err e) safe = (none, refl)
  encode_valid-done ctx frame size (ok u) safe = run_encode-done size _ safe

  telemetry-done :
      (ctx : Source) (size : ℕ) (t : Telemetry)
      → (ws : List (WireMetric pb)) × (fill_metrics pb t h ≡ done ws h)
        × All (λ w. IsSafeValue pb h w.value) ws
      → (o : Option (List ℕ)) × (encode_telemetry pb enc ctx t size h ≡ done o h)
  unfolding encode_telemetry
  telemetry-done ctx size t (ws, run, safe) =
      let (o, encodes) =
        run_encode-done size (event pb ctx telemetry_event t.timestamp_ns (metric_set ws)) safe in
      (o, rw run encodes)

  -- The encoding of an item that owns its blocks finishes and leaves the memory as it was.
  pub encode_queue_item-Owns :
      (ctx : Source) (size : ℕ) {x : QueueItem} {ps : List Ptr}
      → Owns h x ps
      → (o : Option (List ℕ)) × (encode_queue_item pb enc ctx x size h ≡ done o h)
  unfolding encode_queue_item encode_status encode_signal_frame signal_payload
      encode_signal_channels_callback
  encode_queue_item-Owns ctx size of_status = run_encode-done size _ tt
  encode_queue_item-Owns ctx size (of_frame {frame} n m bs ne at same fits channels) =
      encode_valid-done ctx frame size (validate_signal_frame (some frame)) (
        channels-IsSafe pb h (min frame.channel_count channels_max) frame.channels channels,
        bytes-IsSafe pb h frame.samples frame.samples_size (take frame.samples_size bs)
            (λ z. ne (sym same ∙ z))
            (samples-done pb h frame.samples frame.samples_size n m bs (λ z. ne (sym same ∙ z))
              (ap h same ∙ at) fits),
      )
  encode_queue_item-Owns ctx size {x = telemetry t} (of_inline e few b) =
      telemetry-done ctx size t (fill_metrics-Owns pb h t (of_inline e few b))
  encode_queue_item-Owns ctx size {x = telemetry t}
        (of_heap n ms ne at fits few b c apart out out') =
      telemetry-done ctx size t
        (fill_metrics-Owns pb h t (of_heap n ms ne at fits few b c apart out out'))
