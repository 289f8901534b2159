-- ===== src/Tests/Flushes.antt =====
-- Two flushes at a time, a flush whose drain runs, and one that is called while a drain runs.
use aetus.Base.{◌≡◌, ◌<◌, ◌≤◌, refl, true, false}
use aetus.Esp.{esp_ok}
use aetus.Uploader.Flush.{
  Bits, World, flushing, returned, waiting, draining, outside, Reaches, here, next, clears, sets,
  wakes, finishes, returns, uploader_wakes, drain_done, flush_clears, flush_sets, flush_waited,
}
use aetus.Uploader.Waits.{quiet, flush-drained, flush-early}

abbrev no_bits : Bits
no_bits = record { due = false; flush = false; done = true }

-- Three drains were before.
abbrev asked_for : World
asked_for = record {
  bits = record { due = false; flush = true; done = false };
  task = waiting;
  caller = flushing;
  begun = 3;
  ended = 3;
  other = outside;
  begun_before = 3;
  ended_before = 3;
}

asking : Reaches (quiet no_bits waiting 3) asked_for
unfolding flush_clears flush_sets
asking = next (next here (clears refl)) (sets refl)

abbrev flushed : World
flushed = record {
  bits = record { due = false; flush = false; done = false };
  task = waiting;
  caller = returned esp_ok;
  begun = 4;
  ended = 4;
  other = outside;
  begun_before = 3;
  ended_before = 3;
}

flushing_run : Reaches (quiet no_bits waiting 3) flushed
unfolding uploader_wakes drain_done flush_waited
flushing_run = next (next (next asking (wakes refl refl)) (finishes refl)) (returns refl)

flush-drained_example : (3 < 4) × (4 ≤ 4)
flush-drained_example = flush-drained no_bits waiting 3 flushing_run refl

flush-early_example :
    (v : World) × Reaches (quiet no_bits draining 3) v
    × (v.caller ≡ returned esp_ok)
    × (v.begun ≡ v.begun_before)
    × (v.bits.flush ≡ true)
flush-early_example = flush-early no_bits 3
