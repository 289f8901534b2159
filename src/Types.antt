-- ===== src/Types.antt =====
-- The structures of firmware/esp32-aetus/components/aetus/include/aetus.h and aetus_internal.h, and
-- the limits that the build fixes. A `char` array is the list of its bytes, a 32- or 64-bit field a
-- number below the power of two, a float or double its bit pattern, a pointer an address. An
-- enumeration that a caller can set to any number has a constructor `unknown` for the others.
use aetus.Base.{ℕ, Bool, false, Option, List, replicate}

abbrev pub Ptr : Type 0
Ptr = ℕ

abbrev pub null : Ptr
null = 0

abbrev pub max_metrics : ℕ
max_metrics = 32

abbrev pub inline_metrics_max : ℕ
inline_metrics_max = 4

abbrev pub metric_key_max : ℕ
metric_key_max = 20

abbrev pub metric_unit_max : ℕ
metric_unit_max = 8

abbrev pub stream_key_max : ℕ
stream_key_max = 32

abbrev pub channels_max : ℕ
channels_max = 4

abbrev pub samples_max : ℕ
samples_max = 2400

abbrev pub wifi_ssid_max : ℕ
wifi_ssid_max = 32

abbrev pub wifi_password_max : ℕ
wifi_password_max = 64

abbrev pub wifi_identity_max : ℕ
wifi_identity_max = 127

abbrev pub url_max : ℕ
url_max = 159

abbrev pub device_id_max : ℕ
device_id_max = 63

abbrev pub device_token_max : ℕ
device_token_max = 127

abbrev pub reboot_reason_max : ℕ
reboot_reason_max = 24

abbrev pub default_interval_ms : ℕ
default_interval_ms = 600000

abbrev pub rtc_valid_after_unix_s : ℕ
rtc_valid_after_unix_s = 1577836800

-- `uint32_t` and the 32-bit `size_t` of the ESP32 wrap here.
abbrev pub u32_mod : ℕ
u32_mod = 4294967296

abbrev pub u64_mod : ℕ
u64_mod = 18446744073709551616

pub data MetricType : Type 0 where
  int64_value double_value bool_value string_value bytes_value : MetricType
  unknown : ℕ → MetricType

-- The union of the value is the word of its bits: an integer or a double as its bit pattern, a
-- Boolean as 0 or 1, a blob as its address.
pub record Metric : Type 0 where
  pub key : List ℕ
  pub unit : List ℕ
  pub type : MetricType
  pub blob_size : ℕ
  pub value : ℕ

pub record Telemetry : Type 0 where
  pub timestamp_ns : ℕ
  pub metric_count : ℕ
  pub capacity : ℕ
  pub inline_metrics : List Metric
  pub heap_metrics : Ptr

pub data SignalEncoding : Type 0 where
  float32_le int16_le uint16_le int32_le : SignalEncoding
  unknown : ℕ → SignalEncoding

pub data SignalLayout : Type 0 where
  interleaved planar : SignalLayout
  unknown : ℕ → SignalLayout

pub record SignalChannel : Type 0 where
  pub key : List ℕ
  pub unit : List ℕ
  pub has_scale : Bool
  pub scale : ℕ
  pub has_offset : Bool
  pub offset : ℕ

pub record SignalFrame : Type 0 where
  pub timestamp_ns : ℕ
  pub stream_key : List ℕ
  pub sample_interval_ns : ℕ
  pub sample_count : ℕ
  pub encoding : SignalEncoding
  pub layout : SignalLayout
  pub channel_count : ℕ
  pub channels : List SignalChannel
  pub samples : Ptr
  pub samples_size : ℕ

pub data DeviceStatus : Type 0 where
  online degraded offline : DeviceStatus
  unknown : ℕ → DeviceStatus

pub record Status : Type 0 where
  pub status : DeviceStatus
  pub rssi : ℕ
  pub free_heap : ℕ
  pub reboot_reason : List ℕ
  pub timestamp_ns : ℕ

pub data WifiAuth : Type 0 where
  psk peap : WifiAuth
  unknown : ℕ → WifiAuth

pub data AuthMode : Type 0 where
  bearer hmac_sha256 : AuthMode
  unknown : ℕ → AuthMode

-- A `const char *` is an option of the bytes before its terminator.
pub record Config : Type 0 where
  pub wifi_ssid : Option (List ℕ)
  pub wifi_password : Option (List ℕ)
  pub wifi_auth : WifiAuth
  pub wifi_identity : Option (List ℕ)
  pub ingest_url : Option (List ℕ)
  pub time_url : Option (List ℕ)
  pub device_id : Option (List ℕ)
  pub device_token : Option (List ℕ)
  pub auth_mode : AuthMode
  pub firmware_version : ℕ
  pub upload_interval_ms : ℕ
  pub queue_depth : ℕ
  pub connected_led_enabled : Bool
  pub connected_led_gpio : ℕ

pub record SignalPoolStats : Type 0 where
  pub allocated_blocks : ℕ
  pub peak_allocated_blocks : ℕ
  pub allocation_count : ℕ
  pub release_count : ℕ
  pub allocation_failure_count : ℕ
  pub queue_send_failure_release_count : ℕ
  pub validation_failure_release_count : ℕ
  pub upload_success_release_count : ℕ
  pub final_drop_release_count : ℕ
  pub allocated_bytes : ℕ
  pub peak_allocated_bytes : ℕ

-- The kind and the body of a queue item, with the owner of a signal frame's samples.
pub data QueueItem : Type 0 where
  telemetry : Telemetry → QueueItem
  status : Status → QueueItem
  signal_frame : SignalFrame → Ptr → QueueItem

-- What `memset(..., 0, ...)` makes of each structure.
abbrev pub zero_metric : Metric
zero_metric = record {
  key = replicate metric_key_max 0;
  unit = replicate metric_unit_max 0;
  type = int64_value;
  blob_size = 0;
  value = 0;
}

abbrev pub zero_telemetry : Telemetry
zero_telemetry = record {
  timestamp_ns = 0;
  metric_count = 0;
  capacity = 0;
  inline_metrics = replicate inline_metrics_max zero_metric;
  heap_metrics = null;
}

abbrev pub zero_channel : SignalChannel
zero_channel = record {
  key = replicate metric_key_max 0;
  unit = replicate metric_unit_max 0;
  has_scale = false;
  scale = 0;
  has_offset = false;
  offset = 0;
}

abbrev pub zero_frame : SignalFrame
zero_frame = record {
  timestamp_ns = 0;
  stream_key = replicate stream_key_max 0;
  sample_interval_ns = 0;
  sample_count = 0;
  encoding = float32_le;
  layout = interleaved;
  channel_count = 0;
  channels = replicate channels_max zero_channel;
  samples = null;
  samples_size = 0;
}

abbrev pub zero_status : Status
zero_status = record {
  status = online;
  rssi = 0;
  free_heap = 0;
  reboot_reason = replicate reboot_reason_max 0;
  timestamp_ns = 0;
}

abbrev pub zero_stats : SignalPoolStats
zero_stats = record {
  allocated_blocks = 0;
  peak_allocated_blocks = 0;
  allocation_count = 0;
  release_count = 0;
  allocation_failure_count = 0;
  queue_send_failure_release_count = 0;
  validation_failure_release_count = 0;
  upload_success_release_count = 0;
  final_drop_release_count = 0;
  allocated_bytes = 0;
  peak_allocated_bytes = 0;
}
