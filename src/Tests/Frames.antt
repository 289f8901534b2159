-- ===== src/Tests/Frames.antt =====
-- A signal frame of three 16-bit samples, and the events of a device.
use aetus.Base.{
  ◌+◌, ◌≡◌, ◌⊎◌, ◌↔◌, ◌<◌, inl, refl, none, some, List, [], ◌∷◌, ◌++◌, arith, replicate, take,
  codes, ltb, if◌then◌else◌, get_elem?, set, ◌==◌,
}
use aetus.Types.{
  null, Telemetry, zero_telemetry, SignalFrame, zero_frame, zero_channel, zero_stats, zero_status,
  status, int16_le, u32_mod,
}
use aetus.Esp.{no_mem, invalid_arg, ok, err}
use aetus.CString.{IsText, c_str, string_fits}
use aetus.Heap.{sample_header_size, Heap, done, block, bytes}
use aetus.Frame.{
  signal_sample_width_bytes, expected_signal_samples_size, channel_keys_present,
  validate_signal_frame, signal_frame_init, new_channel, signal_frame_add_channel,
}
use aetus.Frame.Size.{
  IsSendable, samples_bytes, validate_signal_frame_iff, expected_signal_samples_size-exact,
}
use aetus.Frame.Builder.{IsBuilt, signal_frame_init-IsBuilt, signal_frame_add_channel-IsBuilt}
use aetus.SignalPool.{note_failure}
use aetus.Enqueue.{enqueue_signal_frame}
use aetus.Enqueue.Memory.{enqueue_signal_frame-outcome, IsQueued, IsRefused}
use aetus.Enqueue.Held.{enqueue_signal_frame-EndsHeld, EndsHeld}
use aetus.Uploader.Owned.{of_status, first, nothing}
use aetus.Event.{WireMetric, Source, fill_event_header}
use aetus.Event.Encode.{fill_metrics}
use aetus.Event.Contents.{fill_event_header-device_id, fill_metrics_lem, PointsTo, CarriesAll}
use aetus.Rtos.Bounded.{Bounded}
use aetus.Uploader.{Round}
use aetus.Tests.Uploads.{answered}
use aetus.Tests.Toys.{low_memory, list_queue, plain_pb, empty_heap}

abbrev three_samples : SignalFrame
three_samples = record zero_frame {
  stream_key = codes "adc" ++ replicate 29 0;
  sample_interval_ns = 1000;
  sample_count = 3;
  encoding = int16_le;
  channel_count = 1;
  channels = record zero_channel { key = codes "x" ++ replicate 19 0 } ∷ replicate 3 zero_channel;
  samples = 1;
  samples_size = 6;
}

validate_signal_frame_iff_example :
    (validate_signal_frame (some three_samples) ≡ ok tt) ↔ IsSendable three_samples
validate_signal_frame_iff_example = validate_signal_frame_iff three_samples

two_bytes : 0 < signal_sample_width_bytes int16_le
unfolding signal_sample_width_bytes
two_bytes = omega arith

expected_signal_samples_size-exact_example : expected_signal_samples_size (some three_samples) ≡ (
    if ltb (samples_bytes three_samples) u32_mod
    then ok (samples_bytes three_samples)
    else err invalid_arg)
expected_signal_samples_size-exact_example =
    expected_signal_samples_size-exact three_samples two_bytes

three_samples-valid : validate_signal_frame (some three_samples) ≡ ok tt
unfolding validate_signal_frame channel_keys_present expected_signal_samples_size
    signal_sample_width_bytes
three_samples-valid = refl

sendable : IsSendable three_samples
sendable = (validate_signal_frame_iff three_samples).0 three_samples-valid

abbrev samples_heap : Heap
samples_heap p = if p == 1 then block 6 (bytes (1 ∷ 0 ∷ 2 ∷ 0 ∷ 3 ∷ 0 ∷ [])) else none

abbrev one_slot : Bounded
one_slot = record { depth = 1; items = [] }

enqueue_signal_frame-outcome_example :
    IsQueued list_queue one_slot zero_stats three_samples
      (1 ∷ 0 ∷ 2 ∷ 0 ∷ 3 ∷ 0 ∷ [])
      samples_heap
      (enqueue_signal_frame list_queue low_memory
        (some one_slot)
        zero_stats
        (some three_samples)
        0
        samples_heap)
    ⊎ (IsRefused list_queue one_slot zero_stats three_samples samples_heap (
          enqueue_signal_frame list_queue low_memory
            (some one_slot)
            zero_stats
            (some three_samples)
            0
            samples_heap)
        ⊎ ((low_memory.pick samples_heap (sample_header_size + 6) ≡ null)
            × (enqueue_signal_frame list_queue low_memory
                  (some one_slot)
                  zero_stats
                  (some three_samples)
                  0
                  samples_heap
                ≡ done (no_mem, some one_slot, note_failure zero_stats) samples_heap)))
enqueue_signal_frame-outcome_example =
    enqueue_signal_frame-outcome list_queue low_memory one_slot zero_stats three_samples 0
      samples_heap (1 ∷ 0 ∷ 2 ∷ 0 ∷ 3 ∷ 0 ∷ []) sendable refl (omega arith)

-- A queue with one item and room for one more.
abbrev one_status : Bounded
one_status = record { depth = 2; items = status zero_status ∷ [] }

enqueue_signal_frame-EndsHeld_example : EndsHeld list_queue one_status three_samples (
    enqueue_signal_frame list_queue low_memory
      (some one_status)
      zero_stats
      (some three_samples)
      0
      samples_heap)
enqueue_signal_frame-EndsHeld_example =
    enqueue_signal_frame-EndsHeld list_queue low_memory one_status zero_stats three_samples 0
      samples_heap (1 ∷ 0 ∷ 2 ∷ 0 ∷ 3 ∷ 0 ∷ []) [] sendable refl (omega arith)
      (first of_status nothing tt)

-- Three rounds in which nothing arrives.
abbrev three_rounds : List Round
three_rounds = answered 200 [] ∷ answered 503 [] ∷ answered 200 [] ∷ []

abbrev with_x : SignalFrame
with_x = record zero_frame {
  channels =
      set zero_frame.channels 0 (new_channel (some (codes "x")) (some (codes "V")) none none);
  channel_count = 1;
}

adds :
    signal_frame_add_channel (some zero_frame) (some (codes "x")) (some (codes "V")) none none
    ≡ ok with_x
unfolding signal_frame_add_channel string_fits
adds = refl

built : IsBuilt zero_frame
unfolding signal_frame_init
built = signal_frame_init-IsBuilt zero_frame

signal_frame_add_channel-IsBuilt_example :
    IsBuilt with_x
    × (with_x.channel_count ≡ 0 + 1)
    × (get_elem? with_x.channels 0
        ≡ some (new_channel (some (codes "x")) (some (codes "V")) none none))
    × (c_str (new_channel (some (codes "x")) (some (codes "V")) none none).key ≡ codes "x")
    × (record with_x { channels = zero_frame.channels; channel_count = zero_frame.channel_count }
        ≡ zero_frame)
signal_frame_add_channel-IsBuilt_example =
    signal_frame_add_channel-IsBuilt zero_frame with_x (codes "x") (some (codes "V")) none none
      built (omega arith, tt) adds

abbrev two_metrics : Telemetry
two_metrics = record zero_telemetry { metric_count = 2 }

no_metrics : PointsTo empty_heap 0 []
unfolding PointsTo
no_metrics = inl (refl, refl)

fill_metrics_lem_example :
    (ws : List (WireMetric plain_pb)) × (fill_metrics plain_pb two_metrics empty_heap
      ≡ done ws empty_heap)
    × CarriesAll plain_pb (take 2 (two_metrics.inline_metrics ++ [])) ws
fill_metrics_lem_example =
    fill_metrics_lem plain_pb two_metrics [] empty_heap refl no_metrics (omega arith)

-- An id of 40 bytes, which the configuration accepts.
abbrev long_id : Source
long_id = record {
  device_id = some (replicate 40 b'a');
  boot_id = codes "boot";
  firmware_version = 1;
  sequence = 0;
  uptime_ms = 0;
}

text : IsText (replicate 40 b'a')
text = ground arith

fill_event_header-device_id_example :
    c_str (fill_event_header long_id).device_id ≡ take 31 (replicate 40 b'a')
fill_event_header-device_id_example =
    fill_event_header-device_id long_id (replicate 40 b'a') refl text
