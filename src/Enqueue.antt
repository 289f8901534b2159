-- ===== src/Enqueue.antt =====
-- The producers' side of the queue in firmware/esp32-aetus/components/aetus/aetus.c:
-- `aetus_enqueue_telemetry`, `aetus_enqueue_signal_frame`, `aetus_enqueue_status` and the two that
-- an interrupt may call. The queue is an option, `none` before `aetus_start`. An interrupt's send
-- is one that does not wait; its static item and lock have no effect of their own.
pub mod Memory
pub mod Isr
pub mod Held
use aetus.Base.{
  ℕ, zero, suc, Bool, false, ◌||◌, Option, none, some, List, [], ◌∷◌, ltb, ◌==◌, if◌then◌else◌,
}
use aetus.Types.{
  Ptr, null, Metric, Telemetry, Status, SignalFrame, SignalPoolStats, QueueItem, telemetry, status,
  signal_frame, inline_metrics_max,
}
use aetus.Esp.{EspErr, esp_ok, no_mem, invalid_arg, invalid_state, timeout, Result, ok, err, is_ok}
use aetus.Heap.{Allocator, M, pure, ◌>>=◌, ◌>>◌, load_bytes, store, sample_block}
use aetus.Frame.{validate_signal_frame}
use aetus.SignalPool.{alloc, note_queue_send_failure}
use aetus.QueueItem.{copy_telemetry_to_queue_item}
use aetus.Telemetry.{is_blob_type}
use aetus.Rtos.{RtosQueue}
use aetus.Uploader.{release_queue_item}

module _ (rtos : RtosQueue) where
  -- The error code, the queue and the counters.
  abbrev pub Outcome : Type 0
  Outcome = EspErr × Option rtos.Queue × SignalPoolStats

  -- After `xQueueSend`: an item that does not fit is released.
  abbrev pub after_send : rtos.Queue → SignalPoolStats → QueueItem → Option rtos.Queue → M Outcome
  after_send q stats item (some q') = pure (esp_ok, some q', stats)
  after_send q stats item none = do
    (stats', gone) ← release_queue_item stats item
    pure (timeout, some q, stats')

  module _ (a : Allocator) where
    unfoldable pub enqueue_telemetry :
        Option rtos.Queue → SignalPoolStats → Option Telemetry → ℕ → M Outcome
    enqueue_telemetry queue stats none ticks = pure (invalid_arg, queue, stats)
    enqueue_telemetry none stats (some t) ticks = pure (invalid_state, none, stats)
    enqueue_telemetry (some q) stats (some t) ticks = do
      (code, item) ← copy_telemetry_to_queue_item a t
      if is_ok code
          then after_send q stats (telemetry item) (rtos.send q (telemetry item) ticks)
          else pure (code, some q, stats)

    -- A frame that does not fit is counted first.
    abbrev pub send_or_count :
        rtos.Queue → SignalPoolStats → QueueItem → Option rtos.Queue → M Outcome
    send_or_count q stats item none = after_send q (note_queue_send_failure stats) item none
    send_or_count q stats item (some q') = after_send q stats item (some q')

    -- The pool's block, with the samples copied to it; `memcpy` and then the send.
    abbrev pub send_frame : rtos.Queue → SignalFrame → ℕ → SignalPoolStats × Ptr × Ptr → M Outcome
    send_frame q frame ticks (stats, owner, samples) =
        if samples == null then pure (no_mem, some q, stats) else do
          bs ← load_bytes frame.samples frame.samples_size
          store samples (sample_block frame.samples_size bs)
          let item = signal_frame (record frame { samples = samples }) owner
          send_or_count q stats item (rtos.send q item ticks)

    abbrev enqueue_valid :
        rtos.Queue → SignalPoolStats → SignalFrame → ℕ → Result (Unit {0}) → M Outcome
    enqueue_valid q stats frame ticks (err e) = pure (e, some q, stats)
    enqueue_valid q stats frame ticks (ok u) = do
      p ← alloc a stats frame.samples_size
      send_frame q frame ticks p

    unfoldable pub enqueue_signal_frame :
        Option rtos.Queue → SignalPoolStats → Option SignalFrame → ℕ → M Outcome
    enqueue_signal_frame queue stats none ticks = pure (invalid_arg, queue, stats)
    enqueue_signal_frame none stats (some frame) ticks = pure (invalid_state, none, stats)
    enqueue_signal_frame (some q) stats (some frame) ticks =
        enqueue_valid q stats frame ticks (validate_signal_frame (some frame))

  abbrev pub sent : EspErr → rtos.Queue → Option rtos.Queue → EspErr × Option rtos.Queue
  sent full q none = (full, some q)
  sent full q (some q') = (esp_ok, some q')

  unfoldable pub enqueue_status : Option rtos.Queue → Option Status → ℕ → EspErr × Option rtos.Queue
  enqueue_status queue none ticks = (invalid_arg, queue)
  enqueue_status none (some s) ticks = (invalid_state, none)
  enqueue_status (some q) (some s) ticks = sent timeout q (rtos.send q (status s) ticks)

  -- The loop over the first `n` metrics; a walk beyond the inline array would read what follows it.
  unfoldable pub has_blob : ℕ → List Metric → Bool
  has_blob zero ms = false
  has_blob (suc n) [] = false
  has_blob (suc n) (m ∷ ms) = is_blob_type m.type || has_blob n ms

  unfoldable pub enqueue_telemetry_from_isr :
      Option rtos.Queue → Option Telemetry → EspErr × Option rtos.Queue
  enqueue_telemetry_from_isr queue none = (invalid_arg, queue)
  enqueue_telemetry_from_isr none (some t) = (invalid_arg, none)
  enqueue_telemetry_from_isr (some q) (some t) =
      if ltb inline_metrics_max t.metric_count || has_blob t.metric_count t.inline_metrics
      then (invalid_arg, some q)
      else sent timeout q (rtos.send q (telemetry t) 0)

  unfoldable pub enqueue_status_from_isr :
      Option rtos.Queue → Option Status → EspErr × Option rtos.Queue
  enqueue_status_from_isr queue none = (invalid_arg, queue)
  enqueue_status_from_isr none (some s) = (invalid_arg, none)
  enqueue_status_from_isr (some q) (some s) = sent timeout q (rtos.send q (status s) 0)
