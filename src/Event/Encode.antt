-- ===== src/Event/Encode.antt =====
-- The `encode_*` functions of firmware/esp32-aetus/components/aetus/aetus.c. `pb_encode`, which
-- writes an event to a stream over the buffer, is a parameter.
use aetus.Base.{ℕ, min, ◌++◌, zero, suc, Option, none, some, List, [], replicate}
use aetus.Types.{
  Ptr, Telemetry, Status, SignalFrame, QueueItem, telemetry, status, signal_frame,
  inline_metrics_max, max_metrics, stream_key_max, reboot_reason_max,
}
use aetus.Esp.{Result, ok, err}
use aetus.CString.{c_str, copy_string}
use aetus.Frame.{validate_signal_frame}
use aetus.Heap.{M, pure, ◌>>=◌, load_metrics}
use aetus.Telemetry.{heap_count}
use aetus.Event.{
  Event, EventType, telemetry_event, status_event, Body, metric_set, frame_payload, status_payload,
  WireMetric, WireFrame, WireStatusPayload, Source, fill_event_header, fill_range,
  map_device_status, map_signal_encoding, map_signal_layout,
}
use aetus.Event.Callbacks.{Nanopb, encode_bytes_callback, encode_signal_channels_callback}

-- `pb_ostream_from_buffer` for some bytes of a buffer, `pb_encode`, and the bytes that are written.
pub record Encoder (pb : Nanopb) : Type 0 where
  pub from_buffer : ℕ → pb.Stream
  pub encode : pb.Stream → Event pb → M (Option pb.Stream)
  pub written : pb.Stream → List ℕ

abbrev pub event : (pb : Nanopb) → Source → EventType → ℕ → Body pb → Event pb
event pb ctx type time body = record {
  header = fill_event_header ctx;
  event_type = type;
  timestamp_ns = time;
  body = body;
}

-- The bytes that `pb_encode` leaves in the buffer, or nothing where it fails.
abbrev pub run_encode : (pb : Nanopb) → Encoder pb → ℕ → Event pb → M (Option (List ℕ))
run_encode pb enc buffer_size e = do
  stream ← enc.encode (enc.from_buffer buffer_size) e
  pure (bytes_of stream)
  where
    bytes_of : Option pb.Stream → Option (List ℕ)
    bytes_of none = none
    bytes_of (some stream) = some (enc.written stream)

-- The metrics beyond the fourth.
unfoldable pub fill_heap_range : (pb : Nanopb) → ℕ → Ptr → M (List (WireMetric pb))
fill_heap_range pb zero heap = pure []
fill_heap_range pb (suc n) heap = do ms ← load_metrics heap; fill_range pb (suc n) ms

-- The metrics of a telemetry, at most `max_metrics`.
unfoldable pub fill_metrics : (pb : Nanopb) → Telemetry → M (List (WireMetric pb))
unfolding fill_heap_range
fill_metrics pb t = do
  inline ← fill_range pb (min t.metric_count inline_metrics_max) t.inline_metrics
  rest ← fill_heap_range pb (heap_count (min t.metric_count max_metrics)) t.heap_metrics
  pure (inline ++ rest)

module _ (pb : Nanopb) (enc : Encoder pb) where
  unfoldable pub encode_telemetry : Source → Telemetry → ℕ → M (Option (List ℕ))
  encode_telemetry ctx t buffer_size = do
    ms ← fill_metrics pb t
    run_encode pb enc buffer_size (event pb ctx telemetry_event t.timestamp_ns (metric_set ms))

  unfoldable pub signal_payload : SignalFrame → WireFrame pb
  signal_payload frame = record {
    stream_key =
        copy_string (replicate stream_key_max 0) stream_key_max (some (c_str frame.stream_key));
    sample_interval_ns = frame.sample_interval_ns;
    sample_count = frame.sample_count;
    encoding = map_signal_encoding frame.encoding;
    layout = map_signal_layout frame.layout;
    channels = encode_signal_channels_callback pb frame;
    samples = encode_bytes_callback pb frame.samples frame.samples_size;
  }

  abbrev pub encode_valid : Source → SignalFrame → ℕ → Result (Unit {0}) → M (Option (List ℕ))
  encode_valid ctx frame buffer_size (err e) = pure none
  encode_valid ctx frame buffer_size (ok u) =
      run_encode pb enc buffer_size
        (event pb ctx telemetry_event frame.timestamp_ns (frame_payload (signal_payload frame)))

  unfoldable pub encode_signal_frame : Source → SignalFrame → ℕ → M (Option (List ℕ))
  encode_signal_frame ctx frame buffer_size =
      encode_valid ctx frame buffer_size (validate_signal_frame (some frame))

  unfoldable pub status_body : Status → WireStatusPayload
  status_body s = record {
    status = map_device_status s.status;
    rssi = s.rssi;
    free_heap = s.free_heap;
    reboot_reason =
        copy_string (replicate reboot_reason_max 0) reboot_reason_max
          (some (c_str s.reboot_reason));
  }

  unfoldable pub encode_status : Source → Status → ℕ → M (Option (List ℕ))
  encode_status ctx s buffer_size =
      run_encode pb enc buffer_size
        (event pb ctx status_event s.timestamp_ns (status_payload (status_body s)))

  unfoldable pub encode_queue_item : Source → QueueItem → ℕ → M (Option (List ℕ))
  encode_queue_item ctx (status s) buffer_size = encode_status ctx s buffer_size
  encode_queue_item ctx (signal_frame frame owner) buffer_size =
      encode_signal_frame ctx frame buffer_size
  encode_queue_item ctx (telemetry t) buffer_size = encode_telemetry ctx t buffer_size
