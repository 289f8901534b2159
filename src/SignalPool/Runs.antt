-- ===== src/SignalPool/Runs.antt =====
-- The counters over any run of the pool's operations.
use aetus.Base.{ℕ, ◌≡◌, subst, List, [], ◌∷◌, ◌++◌, arith}
use aetus.Types.{SignalPoolStats}
use aetus.SignalPool.{
  note_alloc, note_release, note_failure, note_queue_send_failure, note_validation_failure,
  note_upload_success, note_final_drop, reset, copy_stats,
}
use aetus.SignalPool.Accounts.{
  Accounts, IsSmall, reset-Accounts, note_alloc-Accounts, note_release-Accounts,
}

-- The counters with the sizes of the blocks that are out.
pub record Books : Type 0 where
  pub stats : SignalPoolStats
  pub out : List ℕ

pub data Step (b : Books) : Books → Type 0 where
  allocates :
      (size : ℕ)
      → IsSmall (size ∷ b.out)
      → Step b (record { stats = note_alloc b.stats size; out = size ∷ b.out })
  refuses : Step b (record b { stats = note_failure b.stats })
  releases :
      (size : ℕ) (before after : List ℕ)
      → b.out ≡ before ++ size ∷ after
      → Step b (record { stats = note_release b.stats size; out = before ++ after })
  fails_send : Step b (record b { stats = note_queue_send_failure b.stats })
  fails_validation : Step b (record b { stats = note_validation_failure b.stats })
  uploads : Step b (record b { stats = note_upload_success b.stats })
  drops : Step b (record b { stats = note_final_drop b.stats })

pub data Reaches (b : Books) : Books → Type 0 where
  here : Reaches b b
  next : {c d : Books} → Reaches b c → Step c d → Reaches b d

step_keeps : {b c : Books} → Step b c → Accounts b.stats b.out → Accounts c.stats c.out
unfolding note_failure note_queue_send_failure note_validation_failure note_upload_success
    note_final_drop
step_keeps {b} (allocates size small) acc = note_alloc-Accounts b.stats size b.out acc small
step_keeps {b} refuses acc = ground arith
step_keeps {b} (releases size before after e) acc =
    note_release-Accounts b.stats size before after (subst (Accounts b.stats) e acc)
step_keeps {b} fails_send acc = ground arith
step_keeps {b} fails_validation acc = ground arith
step_keeps {b} uploads acc = ground arith
step_keeps {b} drops acc = ground arith

-- Over any run of the pool's operations from a reset on, in which the blocks that are out fit 32
-- bits, the counters keep the number and the bytes of these blocks, peaks that are at least as high,
-- and as many allocations as releases and blocks that are out; a copy of them says the same.
pub reset-accounted :
    (stats target : SignalPoolStats) {b : Books}
    → Reaches (record { stats = reset stats; out = [] }) b
    → Accounts (copy_stats target b.stats) b.out
unfolding copy_stats
reset-accounted stats target here = reset-Accounts stats
reset-accounted stats target (next before step) =
    step_keeps step (reset-accounted stats target before)
