-- ===== src/SignalPool/Accounts.antt =====
-- The counters keep account of the blocks that are out, by the list of their sizes.
use aetus.Base.{ℕ, ◌+◌, ◌%◌, ◌≤◌, ◌<◌, ◌≡◌, List, [], ◌∷◌, ◌++◌, arith, length, length-append}
use aetus.Types.{SignalPoolStats, u32_mod}
use aetus.SignalPool.{note_alloc, note_release, reset}

abbrev pub sum : List ℕ → ℕ
sum [] = 0
sum (n ∷ ns) = n + sum ns

pub sum-append : (ms ns : List ℕ) → sum (ms ++ ns) ≡ sum ms + sum ns
sum-append [] ns = omega arith
sum-append (m ∷ ms) ns = omega (arith, sum-append ms ns)

-- The blocks that are out have the sizes `out`, and the counters say so: their number and bytes,
-- the peaks at least as high, and as many allocations as releases and blocks still out.
pub record Accounts (stats : SignalPoolStats) (out : List ℕ) : Type 0 where
  pub blocks : stats.allocated_blocks ≡ length out
  pub total : stats.allocated_bytes ≡ sum out
  pub peak_blocks : length out ≤ stats.peak_allocated_blocks
  pub peak_bytes : sum out ≤ stats.peak_allocated_bytes
  pub balance : stats.allocation_count ≡ (stats.release_count + length out) % u32_mod

-- The counters do not wrap while the blocks that are out fit 32 bits.
abbrev pub IsSmall : List ℕ → Type 0
IsSmall out = (length out < u32_mod) × (sum out < u32_mod)

pub reset-Accounts : (stats : SignalPoolStats) → Accounts (reset stats) []
unfolding reset
reset-Accounts stats = ground arith

-- Counting an allocation keeps the accounts (the number, the bytes and the peaks of the blocks
-- that are out), as long as these blocks fit 32 bits.
pub note_alloc-Accounts :
    (stats : SignalPoolStats) (size : ℕ) (out : List ℕ)
    → Accounts stats out
    → IsSmall (size ∷ out)
    → Accounts (note_alloc stats size) (size ∷ out)
unfolding note_alloc
note_alloc-Accounts stats size out acc small = ground arith

-- Counting the release of any block that is out keeps the accounts.
pub note_release-Accounts :
    (stats : SignalPoolStats) (size : ℕ) (before after : List ℕ)
    → Accounts stats (before ++ size ∷ after)
    → Accounts (note_release stats size) (before ++ after)
unfolding note_release
note_release-Accounts stats size before after acc = ground (
  arith,
  length-append {0} before (size ∷ after),
  length-append {0} before after,
  sum-append before (size ∷ after),
  sum-append before after,
)
