-- ===== src/Uploader/Flush.antt =====
-- The bits of the event group between the uploader task, its timer and `aetus_flush`, which
-- firmware/esp32-aetus/components/aetus/aetus.c has in `upload_timer_callback`, `uploader_task`, the
-- end of `drain_queue` and `aetus_flush`. The tasks interleave at their calls of the event group; two
-- of them may call `aetus_flush`, one that is followed and another, as often as it likes.
use aetus.Base.{ℕ, ◌+◌, ◌≡◌, Bool, true, false, ◌||◌, if◌then◌else◌}
use aetus.Esp.{EspErr, esp_ok, timeout}

-- `AETUS_UPLOAD_DUE_BIT`, `AETUS_UPLOAD_FLUSH_BIT` and `AETUS_UPLOAD_DONE_BIT`.
pub record Bits : Type 0 where
  pub due : Bool
  pub flush : Bool
  pub done : Bool

unfoldable pub upload_timer_callback : Bits → Bits
upload_timer_callback bits = record bits { due = true }

-- The wait of the uploader task: the bits that it waits for are cleared, and whether it drains.
unfoldable pub uploader_wakes : Bits → Bits × Bool
uploader_wakes bits =
    if bits.due || bits.flush
    then (record bits { due = false; flush = false }, true)
    else (bits, false)

-- The end of `drain_queue`, on each of its paths.
unfoldable pub drain_done : Bits → Bits
drain_done bits = record bits { done = true }

-- The first and the second call of `aetus_flush`, and its wait when it ends, with the code.
unfoldable pub flush_clears : Bits → Bits
flush_clears bits = record bits { done = false }

unfoldable pub flush_sets : Bits → Bits
flush_sets bits = record bits { flush = true }

unfoldable pub flush_waited : Bits → Bits × EspErr
flush_waited bits = if bits.done then (record bits { done = false }, esp_ok) else (bits, timeout)

pub data Task : Type 0 where
  waiting draining : Task

pub data Caller : Type 0 where
  outside cleared flushing : Caller
  returned : EspErr → Caller

-- A task that may call `aetus_flush`.
abbrev pub IsFree : Caller → Type 0
IsFree outside = Unit
IsFree (returned code) = Unit
IsFree _ = ⊥

-- The bits, the uploader task and two tasks that flush, with how many drains began and ended, and how many had begun and ended
-- when the first of them cleared the done bit.
pub record World : Type 0 where
  pub bits : Bits
  pub task : Task
  pub caller : Caller
  pub other : Caller
  pub begun : ℕ
  pub ended : ℕ
  pub begun_before : ℕ
  pub ended_before : ℕ

pub data Step (w : World) : World → Type 0 where
  ticks : Step w (record w { bits = upload_timer_callback w.bits })
  wakes :
      w.task ≡ waiting
      → (uploader_wakes w.bits).1 ≡ true
      → Step w (record w { bits = (uploader_wakes w.bits).0; task = draining; begun = w.begun + 1 })
  finishes :
      w.task ≡ draining
      → Step w (record w { bits = drain_done w.bits; task = waiting; ended = w.ended + 1 })
  clears :
      w.caller ≡ outside
      → Step w (record w {
        bits = flush_clears w.bits;
        caller = cleared;
        begun_before = w.begun;
        ended_before = w.ended;
      })
  sets : w.caller ≡ cleared → Step w (record w { bits = flush_sets w.bits; caller = flushing })
  returns :
      w.caller ≡ flushing
      → Step w
          (record w { bits = (flush_waited w.bits).0; caller = returned (flush_waited w.bits).1 })
  other_clears : IsFree w.other → Step w (record w { bits = flush_clears w.bits; other = cleared })
  other_sets : w.other ≡ cleared → Step w (record w { bits = flush_sets w.bits; other = flushing })
  other_returns :
      w.other ≡ flushing
      → Step w
          (record w { bits = (flush_waited w.bits).0; other = returned (flush_waited w.bits).1 })

pub data Reaches (w : World) : World → Type 0 where
  here : Reaches w w
  next : {u v : World} → Reaches w u → Step u v → Reaches w v
