-- ===== src/Uploader.antt =====
-- The uploader task of firmware/esp32-aetus/components/aetus/aetus.c: `release_queue_item` and
-- `drain_queue`. What happens around the task is a list of rounds, one for each item that it takes:
-- the time, what the producers send to the queue until the item is settled, and the answer to the
-- post. A loop that runs out of rounds says so.
pub mod Drains
pub mod Order
pub mod Numbers
pub mod Encodes
pub mod Enqueued
pub mod Ends
pub mod Flush
pub mod Owned
pub mod Releases
pub mod Total
pub mod Waits
use aetus.Base.{
  ℕ, ◌+◌, ◌%◌, Bool, true, false, Option, none, some, List, [], ◌∷◌, ◌++◌, if◌then◌else◌,
}
use aetus.Types.{null, u64_mod, Config, SignalPoolStats, QueueItem, telemetry, status, signal_frame}
use aetus.Esp.{EspErr, is_ok}
use aetus.Heap.{M, pure, ◌>>=◌, ◌>>◌}
use aetus.SignalPool.{release, note_validation_failure, note_upload_success, note_final_drop}
use aetus.QueueItem.{release_telemetry_queue_item}
use aetus.Rtos.{RtosQueue}
use aetus.Hmac.{Mbedtls}
use aetus.Event.{Source}
use aetus.Event.Callbacks.{Nanopb}
use aetus.Event.Encode.{Encoder, encode_queue_item}
use aetus.Post.{HttpAnswer, post_payload}

-- The counters, and the item without what it owned.
unfoldable pub release_queue_item : SignalPoolStats → QueueItem → M (SignalPoolStats × QueueItem)
release_queue_item stats (telemetry t) = do
  item ← release_telemetry_queue_item (telemetry t)
  pure (stats, item)
release_queue_item stats (signal_frame frame owner) = do
  stats' ← release stats owner
  pure (stats', signal_frame (record frame { samples = null; samples_size = 0 }) null)
release_queue_item stats (status s) = pure (stats, status s)

-- `if (item.kind == AETUS_QUEUE_ITEM_SIGNAL_FRAME)` before a counter.
unfoldable pub note_if_frame :
    (SignalPoolStats → SignalPoolStats) → QueueItem → SignalPoolStats → SignalPoolStats
note_if_frame note (signal_frame frame owner) stats = note stats
note_if_frame note (telemetry t) stats = stats
note_if_frame note (status s) stats = stats

-- What becomes of an item: it cannot be encoded, it is uploaded under a sequence number and with a
-- payload, or its post fails and it goes back to the front, or is dropped where the queue is full.
pub data Fate : Type 0 where
  unencodable returned dropped : Fate
  uploaded : ℕ → List ℕ → Fate

pub record Round : Type 0 where
  pub uptime_ms : ℕ
  pub arrivals : List QueueItem
  pub answer : HttpAnswer

pub record State (rtos : RtosQueue) : Type 0 where
  pub queue : rtos.Queue
  pub sequence : ℕ
  pub stats : SignalPoolStats

-- A run of the loop: the state that it leaves, what became of each item that it took, the arrivals
-- that the queue had room for, and whether it ended before the rounds did.
pub record Drained (rtos : RtosQueue) : Type 0 where
  pub state : State rtos
  pub log : List (QueueItem × Fate)
  pub admitted : List QueueItem
  pub ended : Bool

-- `AETUS_ENCODE_BUFFER_BYTES`
abbrev pub encode_buffer_bytes : ℕ
encode_buffer_bytes = 4096

module _ (rtos : RtosQueue) where
  -- Sends of the producers, one after the other; an item that does not fit stays with its producer.
  abbrev kept : rtos.Queue → QueueItem → Option rtos.Queue → rtos.Queue × List QueueItem
  kept q x none = (q, [])
  kept q x (some r) = (r, x ∷ [])

  unfoldable pub admit : rtos.Queue → List QueueItem → rtos.Queue × List QueueItem
  admit q [] = (q, [])
  admit q (x ∷ xs) =
      let first = kept q x (rtos.send q x 0) in
      let rest = admit first.0 xs in (rest.0, first.1 ++ rest.1)

  abbrev pub halt : State rtos → List (QueueItem × Fate) → List QueueItem → Bool → Drained rtos
  halt s log admitted ended = record { state = s; log = log; admitted = admitted; ended = ended }

  -- A run after an item that is done with.
  abbrev pub push : QueueItem → Fate → List QueueItem → Drained rtos → Drained rtos
  push item fate admitted d = record d {
    log = (item, fate) ∷ d.log;
    admitted = admitted ++ d.admitted;
  }

  module _ (md : Mbedtls) (pb : Nanopb) (enc : Encoder pb) (config : Config)
      (boot_id : List ℕ) where
    abbrev pub source : State rtos → Round → Source
    source s r = record {
      device_id = config.device_id;
      boot_id = boot_id;
      firmware_version = config.firmware_version;
      sequence = s.sequence;
      uptime_ms = r.uptime_ms;
    }

    -- The item goes back to the front, or is dropped.
    abbrev pub requeue :
        State rtos → QueueItem → rtos.Queue × List QueueItem → Option rtos.Queue → M (Drained rtos)
    requeue s item (q, new) (some q') =
        pure (halt (record s { queue = q' }) ((item, returned) ∷ []) new true)
    requeue s item (q, new) none = do
      (stats, gone) ← release_queue_item (note_if_frame note_final_drop item s.stats) item
      pure (halt (record s { queue = q; stats = stats }) ((item, dropped) ∷ []) new true)

    -- The rest of a round, once the item is encoded or not; `next` is the rest of the loop.
    abbrev pub settle :
        (State rtos → M (Drained rtos))
        → Round
        → State rtos
        → QueueItem
        → rtos.Queue × List QueueItem
        → Option (List ℕ)
        → M (Drained rtos)
    settle next r s item (q, new) none = do
      (stats, gone) ← release_queue_item (note_if_frame note_validation_failure item s.stats) item
      d ← next (record s { queue = q; stats = stats })
      pure (push item unencodable new d)
    settle next r s item (q, new) (some payload) =
        if is_ok (post_payload md config payload r.answer)
        then (do
          (stats, gone) ← release_queue_item (note_if_frame note_upload_success item s.stats) item
          d ← next (record { queue = q; sequence = (s.sequence + 1) % u64_mod; stats = stats })
          pure (push item (uploaded s.sequence payload) new d))
        else requeue s item (q, new) (rtos.send_to_front q item)

    abbrev pub take_item :
        (State rtos → M (Drained rtos))
        → Round
        → State rtos
        → Option (QueueItem × rtos.Queue)
        → M (Drained rtos)
    take_item next r s none = pure (halt s [] [] true)
    take_item next r s (some (item, q)) = do
      payload ← encode_queue_item pb enc (source s r) item encode_buffer_bytes
      settle next r s item (admit q r.arrivals) payload

    abbrev pub out_of_rounds : State rtos → Option (QueueItem × rtos.Queue) → Drained rtos
    out_of_rounds s none = halt s [] [] true
    out_of_rounds s (some _) = halt s [] [] false

    unfoldable pub drain_loop : List Round → State rtos → M (Drained rtos)
    drain_loop [] s = pure (out_of_rounds s (rtos.receive s.queue))
    drain_loop (r ∷ rs) s = take_item (drain_loop rs) r s (rtos.receive s.queue)

    -- `drain_queue`, for the result of `wifi_wait_connected`; either way the done bit is set.
    unfoldable pub drain_queue : EspErr → List Round → State rtos → M (Drained rtos × Bool)
    unfolding drain_loop
    drain_queue connected rounds s =
        if is_ok connected
        then (do d ← drain_loop rounds s; pure (d, d.ended))
        else pure (halt s [] [] true, true)
