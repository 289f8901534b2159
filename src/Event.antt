-- ===== src/Event.antt =====
-- The protobuf event of firmware/esp32-aetus/components/aetus/aetus.c: `fill_event_header`,
-- `fill_metric`, the `map_*` functions and the events that the `encode_*` functions fill in. The
-- structures are those of the generated ingest.pb.h; a `pb_callback_t` is its function with its
-- argument, which writes to a stream of nanopb and reads memory.
pub mod Callbacks
pub mod Encode
pub mod Contents
use aetus.Base.{ℕ, zero, suc, some, List, [], ◌∷◌, replicate}
use aetus.Types.{
  Metric, MetricType, SignalEncoding, float32_le, int16_le, uint16_le, int32_le, SignalLayout,
  interleaved, planar, DeviceStatus, online, degraded, offline, metric_key_max, metric_unit_max,
}
use aetus.CString.{CStr, c_str, copy_string}
use aetus.Heap.{M, pure, failed, ◌>>=◌, ◌>>◌}
use Callbacks.{Nanopb, Callback, encode_string_callback, encode_bytes_callback}

pub data WireStatus : Type 0 where
  status_unspecified status_online status_degraded status_offline : WireStatus

pub data WireEncoding : Type 0 where
  wire_float32_le wire_int16_le wire_uint16_le wire_int32_le : WireEncoding

pub data WireLayout : Type 0 where
  wire_interleaved wire_planar : WireLayout

pub data WireValue (pb : Nanopb) : Type 0 where
  int_value double_value bool_value : ℕ → WireValue pb
  string_value bytes_value : Callback pb → WireValue pb

pub record WireMetric (pb : Nanopb) : Type 0 where
  pub key : List ℕ
  pub unit : List ℕ
  pub value : WireValue pb

pub record WireFrame (pb : Nanopb) : Type 0 where
  pub stream_key : List ℕ
  pub sample_interval_ns : ℕ
  pub sample_count : ℕ
  pub encoding : WireEncoding
  pub layout : WireLayout
  pub channels : Callback pb
  pub samples : Callback pb

pub record WireStatusPayload : Type 0 where
  pub status : WireStatus
  pub rssi : ℕ
  pub free_heap : ℕ
  pub reboot_reason : List ℕ

pub data Body (pb : Nanopb) : Type 0 where
  metric_set : List (WireMetric pb) → Body pb
  frame_payload : WireFrame pb → Body pb
  status_payload : WireStatusPayload → Body pb

pub data EventType : Type 0 where
  telemetry_event status_event : EventType

pub record Header : Type 0 where
  pub schema_version : ℕ
  pub device_id : List ℕ
  pub sequence : ℕ
  pub boot_id : List ℕ
  pub firmware_version : ℕ
  pub uptime_ms : ℕ

pub record Event (pb : Nanopb) : Type 0 where
  pub header : Header
  pub event_type : EventType
  pub timestamp_ns : ℕ
  pub body : Body pb

-- `char device_id[32]` and `char boot_id[32]`.
abbrev pub wire_id_size : ℕ
wire_id_size = 32

-- What the header is filled in from: `ctx->config`, `ctx->boot_id`, `ctx->sequence` and the timer.
pub record Source : Type 0 where
  pub device_id : CStr
  pub boot_id : List ℕ
  pub firmware_version : ℕ
  pub sequence : ℕ
  pub uptime_ms : ℕ

unfoldable pub fill_event_header : Source → Header
fill_event_header ctx = record {
  schema_version = 1;
  device_id = copy_string (replicate wire_id_size 0) wire_id_size ctx.device_id;
  sequence = ctx.sequence;
  boot_id = copy_string (replicate wire_id_size 0) wire_id_size (some (c_str ctx.boot_id));
  firmware_version = ctx.firmware_version;
  uptime_ms = ctx.uptime_ms;
}

unfoldable pub map_device_status : DeviceStatus → WireStatus
map_device_status online = status_online
map_device_status degraded = status_degraded
map_device_status offline = status_offline
map_device_status (DeviceStatus.unknown n) = status_unspecified

unfoldable pub map_signal_encoding : SignalEncoding → WireEncoding
map_signal_encoding int16_le = wire_int16_le
map_signal_encoding uint16_le = wire_uint16_le
map_signal_encoding int32_le = wire_int32_le
map_signal_encoding float32_le = wire_float32_le
map_signal_encoding (SignalEncoding.unknown n) = wire_float32_le

unfoldable pub map_signal_layout : SignalLayout → WireLayout
map_signal_layout planar = wire_planar
map_signal_layout interleaved = wire_interleaved
map_signal_layout (SignalLayout.unknown n) = wire_interleaved

-- The member of the union that the type selects.
abbrev pub wire_value : (pb : Nanopb) → Metric → MetricType → WireValue pb
wire_value pb m MetricType.int64_value = WireValue.int_value m.value
wire_value pb m MetricType.bool_value = WireValue.bool_value m.value
wire_value pb m MetricType.string_value = WireValue.string_value (encode_string_callback pb m.value)
wire_value pb m MetricType.bytes_value =
    WireValue.bytes_value (encode_bytes_callback pb m.value m.blob_size)
wire_value pb m MetricType.double_value = WireValue.double_value m.value
wire_value pb m (MetricType.unknown n) = WireValue.double_value m.value

unfoldable pub fill_metric : (pb : Nanopb) → Metric → WireMetric pb
fill_metric pb source = record {
  key = copy_string (replicate metric_key_max 0) metric_key_max (some (c_str source.key));
  unit = copy_string (replicate metric_unit_max 0) metric_unit_max (some (c_str source.unit));
  value = wire_value pb source source.type;
}

-- The loop over the metrics of the first `n` places of an array.
unfoldable pub fill_range : (pb : Nanopb) → ℕ → List Metric → M (List (WireMetric pb))
fill_range pb zero ms = pure []
fill_range pb (suc n) [] = failed
fill_range pb (suc n) (m ∷ ms) = do rest ← fill_range pb n ms; pure (fill_metric pb m ∷ rest)
