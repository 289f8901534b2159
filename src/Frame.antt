-- ===== src/Frame.antt =====
-- Signal frames in firmware/esp32-aetus/components/aetus/aetus.c: the functions that fill in a
-- frame, its expected size, and `validate_signal_frame`. A frame that a caller passes by pointer is
-- an option; a function that fails leaves it unchanged, so that only the new frame is returned.
pub mod Size
pub mod Builder
use aetus.Base.{
  ℕ, zero, suc, ◌+◌, ◌-◌, ◌*◌, ◌/◌, ◌%◌, Bool, true, false, not, ◌||◌, Option, none, some, List, [],
  ◌∷◌, ltb, leb, ◌==◌, set,
}
use aetus.Types.{
  Ptr, null, u32_mod, SignalEncoding, float32_le, int16_le, uint16_le, int32_le, interleaved,
  SignalChannel, SignalFrame, zero_frame, zero_channel, metric_key_max, metric_unit_max,
  stream_key_max, channels_max, samples_max,
}
use aetus.Esp.{◌>>=◌, ◌>>◌, invalid_arg, Result, ok, err, guard, or_err}
use aetus.CString.{CStr, is_empty, starts_nul, string_fits, copy_string}

unfoldable pub signal_sample_width_bytes : SignalEncoding → ℕ
signal_sample_width_bytes int16_le = 2
signal_sample_width_bytes uint16_le = 2
signal_sample_width_bytes float32_le = 4
signal_sample_width_bytes int32_le = 4
signal_sample_width_bytes (SignalEncoding.unknown n) = 0

-- `SIZE_MAX`
abbrev pub size_max : ℕ
size_max = u32_mod - 1

unfoldable pub expected_signal_samples_size : Option SignalFrame → Result ℕ
unfolding signal_sample_width_bytes
expected_signal_samples_size frame_ptr = do
  frame ← or_err frame_ptr invalid_arg
  let sample_width = signal_sample_width_bytes frame.encoding
  guard (ltb 0 sample_width) invalid_arg
  guard (frame.channel_count == 0 || leb frame.sample_count (size_max / frame.channel_count))
      invalid_arg
  let total = frame.sample_count * frame.channel_count % u32_mod
  guard (total == 0 || leb total (size_max / sample_width)) invalid_arg
  ok (total * sample_width % u32_mod)

-- The loop over the first `n` channels.
unfoldable pub channel_keys_present : ℕ → List SignalChannel → Result (Unit {0})
channel_keys_present zero channels = ok tt
channel_keys_present (suc n) [] = err invalid_arg
channel_keys_present (suc n) (c ∷ cs) =
    guard (not (starts_nul c.key)) invalid_arg >> channel_keys_present n cs

unfoldable pub validate_signal_frame : Option SignalFrame → Result (Unit {0})
validate_signal_frame frame_ptr = do
  frame ← or_err frame_ptr invalid_arg
  guard (not (starts_nul frame.stream_key)) invalid_arg
  guard (ltb 0 frame.sample_interval_ns) invalid_arg
  guard (ltb 0 frame.sample_count) invalid_arg
  guard (ltb 0 frame.channel_count) invalid_arg
  guard (leb frame.channel_count channels_max) invalid_arg
  guard (ltb 0 frame.samples_size) invalid_arg
  guard (not (frame.samples == null)) invalid_arg
  guard (leb frame.samples_size samples_max) invalid_arg
  channel_keys_present frame.channel_count frame.channels
  expected_size ← expected_signal_samples_size (some frame)
  guard (expected_size == frame.samples_size) invalid_arg

unfoldable pub signal_frame_init : Option SignalFrame → Option SignalFrame
signal_frame_init none = none
signal_frame_init (some frame) =
    some (record zero_frame { encoding = float32_le; layout = interleaved })

-- `value != NULL && value[0] != '\0'`
abbrev pub has_text : CStr → Bool
has_text none = false
has_text (some s) = not (is_empty s)

unfoldable pub signal_frame_set_stream_key : Option SignalFrame → CStr → Result SignalFrame
signal_frame_set_stream_key frame_ptr stream_key = do
  frame ← or_err frame_ptr invalid_arg
  guard (has_text stream_key) invalid_arg
  guard (string_fits stream_key stream_key_max) invalid_arg
  ok (record frame { stream_key = copy_string frame.stream_key stream_key_max stream_key })

-- A scale or an offset that is not `NULL`.
abbrev set_scale : SignalChannel → Option ℕ → SignalChannel
set_scale channel none = channel
set_scale channel (some scale) = record channel { has_scale = true; scale = scale }

abbrev set_offset : SignalChannel → Option ℕ → SignalChannel
set_offset channel none = channel
set_offset channel (some offset) = record channel { has_offset = true; offset = offset }

unfoldable pub new_channel : (key unit : CStr) → (scale offset : Option ℕ) → SignalChannel
new_channel key unit scale offset =
    let named = record zero_channel {
      key = copy_string zero_channel.key metric_key_max key;
      unit = copy_string zero_channel.unit metric_unit_max unit;
    } in
    set_offset (set_scale named scale) offset

unfoldable pub signal_frame_add_channel :
    Option SignalFrame → (key unit : CStr) → (scale offset : Option ℕ) → Result SignalFrame
signal_frame_add_channel frame_ptr key unit scale offset = do
  frame ← or_err frame_ptr invalid_arg
  guard (has_text key) invalid_arg
  guard (string_fits key metric_key_max) invalid_arg
  guard (string_fits unit metric_unit_max) invalid_arg
  guard (ltb frame.channel_count channels_max) invalid_arg
  ok (record frame {
    channels = set frame.channels frame.channel_count (new_channel key unit scale offset);
    channel_count = frame.channel_count + 1;
  })

unfoldable pub signal_frame_set_samples : Option SignalFrame → Ptr → ℕ → Result SignalFrame
signal_frame_set_samples frame_ptr samples samples_size = do
  frame ← or_err frame_ptr invalid_arg
  guard (not (samples == null) || samples_size == 0) invalid_arg
  guard (leb samples_size samples_max) invalid_arg
  ok (record frame { samples = samples; samples_size = samples_size })
