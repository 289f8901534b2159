-- ===== src/Clock.antt =====
-- The clock of the device in firmware/esp32-aetus/components/aetus/aetus.c: where the time is asked
-- for (`resolve_time_url`), the body of the answer (`collect_http_body`), the setting of the RTC and
-- the timestamps. What `gettimeofday` and `settimeofday` return is an input.
pub mod Answer
pub mod Body
pub mod Fetch
pub mod Rtc
pub mod Sync
pub mod Url
use aetus.Base.{
  ℕ, ◌+◌, ◌-◌, ◌*◌, ◌/◌, ◌%◌, Bool, ◌||◌, Option, none, some, List, ◌++◌, leb, if◌then◌else◌,
  length, take, codes,
}
use aetus.Types.{
  Config, Telemetry, SignalFrame, Status, DeviceStatus, zero_status, reboot_reason_max,
  rtc_valid_after_unix_s, u64_mod,
}
use aetus.Esp.{
  Result, ok, guard, or_err, ◌>>=◌, ◌>>◌, esp_fail, no_mem, invalid_arg, invalid_state,
  invalid_response,
}
use aetus.CString.{CStr, ends_with, string_fits, copy_string}
use aetus.Frame.{has_text}
use aetus.Post.{text_of}

-- The bytes that were collected, which a terminator follows in the buffer.
pub record HttpBody : Type 0 where
  pub text : List ℕ
  pub capacity : ℕ
  pub overflow : Bool

-- The handler of the client's events: a piece of the answer, or `none` for any other event.
unfoldable pub collect_http_body : HttpBody → Option (List ℕ) → HttpBody
collect_http_body body none = body
collect_http_body body (some piece) =
    let full = leb body.capacity (length body.text + length piece) in
    let incoming = if full then body.capacity - length body.text - 1 else length piece in
    record body { text = body.text ++ take incoming piece; overflow = body.overflow || full }

abbrev pub ingest_path : List ℕ
ingest_path = codes "/v1/ingest"

abbrev pub time_path : List ℕ
time_path = codes "/v1/time"

-- The URL, from the configuration or in a buffer of some bytes.
unfoldable pub resolve_time_url : Config → ℕ → Result (List ℕ)
resolve_time_url config buffer_size =
    if has_text config.time_url then ok (text_of config.time_url) else (do
      guard (ends_with config.ingest_url (some ingest_path)) invalid_state
      let ingest_url = text_of config.ingest_url
      let prefix_len = length ingest_url - length ingest_path
      guard (leb (prefix_len + length time_path + 1) buffer_size) no_mem
      ok (take prefix_len ingest_url ++ time_path))

pub record TimeVal : Type 0 where
  pub tv_sec : ℕ
  pub tv_usec : ℕ

-- The time that the RTC is set to, for whether `settimeofday` succeeds.
unfoldable pub set_rtc_from_unix_time_ns : Bool → ℕ → Result TimeVal
set_rtc_from_unix_time_ns set_ok unix_time_ns = do
  let unix_time_s = unix_time_ns / 1000000000
  guard (leb rtc_valid_after_unix_s unix_time_s) invalid_response
  guard set_ok esp_fail
  ok (record { tv_sec = unix_time_s; tv_usec = unix_time_ns % 1000000000 / 1000 })

-- For what `gettimeofday` gives.
unfoldable pub rtc_timestamp_ns : Option TimeVal → Result ℕ
rtc_timestamp_ns clock = do
  now ← or_err clock esp_fail
  guard (leb rtc_valid_after_unix_s now.tv_sec) invalid_state
  ok ((now.tv_sec * 1000000000 + now.tv_usec * 1000) % u64_mod)

unfoldable pub telemetry_set_timestamp_rtc : Option TimeVal → Option Telemetry → Result Telemetry
telemetry_set_timestamp_rtc clock telemetry = do
  t ← or_err telemetry invalid_arg
  now ← rtc_timestamp_ns clock
  ok (record t { timestamp_ns = now })

unfoldable pub signal_frame_set_timestamp_rtc :
    Option TimeVal → Option SignalFrame → Result SignalFrame
signal_frame_set_timestamp_rtc clock frame = do
  f ← or_err frame invalid_arg
  now ← rtc_timestamp_ns clock
  ok (record f { timestamp_ns = now })

unfoldable pub status_set_timestamp_rtc : Option TimeVal → Option Status → Result Status
status_set_timestamp_rtc clock status = do
  s ← or_err status invalid_arg
  now ← rtc_timestamp_ns clock
  ok (record s { timestamp_ns = now })

unfoldable pub status_init : Option Status → DeviceStatus → Option Status
status_init none device_status = none
status_init (some old) device_status = some (record zero_status { status = device_status })

unfoldable pub status_set_reboot_reason : Option Status → CStr → Result Status
status_set_reboot_reason status reboot_reason = do
  s ← or_err status invalid_arg
  reason ← or_err reboot_reason invalid_arg
  guard (string_fits (some reason) reboot_reason_max) invalid_arg
  ok (record s { reboot_reason = copy_string s.reboot_reason reboot_reason_max (some reason) })
