-- ===== src/SignalPool.antt =====
-- firmware/esp32-aetus/components/aetus/aetus_signal_sample_pool.c. Each critical section updates the
-- counters at once, so an operation is one step; the counters wrap like `uint32_t` and a 32-bit
-- `size_t`. The pointers to the counters are never `NULL` where the firmware calls these functions,
-- and their checks are left out; an owner may be `NULL`.
pub mod Accounts
pub mod Blocks
pub mod Runs
use aetus.Base.{ℕ, ◌+◌, ◌-◌, ◌%◌, ◌||◌, ltb, leb, ◌==◌, if◌then◌else◌, replicate}
use aetus.Types.{Ptr, null, SignalPoolStats, zero_stats, samples_max, u32_mod}
use aetus.Heap.{
  ◌>>=◌, ◌>>◌, Allocator, M, pure, malloc, free, store, load_size, sample_block, sample_header_size,
}

unfoldable pub note_alloc : SignalPoolStats → ℕ → SignalPoolStats
note_alloc stats size =
    let blocks = (stats.allocated_blocks + 1) % u32_mod in
    let total = (stats.allocated_bytes + size) % u32_mod in
    record stats {
      allocated_blocks = blocks;
      allocation_count = (stats.allocation_count + 1) % u32_mod;
      allocated_bytes = total;
      peak_allocated_blocks =
          if ltb stats.peak_allocated_blocks blocks then blocks else stats.peak_allocated_blocks;
      peak_allocated_bytes =
          if ltb stats.peak_allocated_bytes total then total else stats.peak_allocated_bytes;
    }

unfoldable pub note_release : SignalPoolStats → ℕ → SignalPoolStats
note_release stats size = record stats {
  allocated_blocks =
      if ltb 0 stats.allocated_blocks then stats.allocated_blocks - 1 else stats.allocated_blocks;
  allocated_bytes = if leb size stats.allocated_bytes then stats.allocated_bytes - size else 0;
  release_count = (stats.release_count + 1) % u32_mod;
}

unfoldable pub reset : SignalPoolStats → SignalPoolStats
reset stats = zero_stats

unfoldable pub note_failure : SignalPoolStats → SignalPoolStats
note_failure stats = record stats {
  allocation_failure_count = (stats.allocation_failure_count + 1) % u32_mod;
}

-- The counters, the owner and the sample buffer, which starts inside the owner's block and is
-- `NULL` exactly when the owner is. The header is written with the bytes of the buffer behind it.
unfoldable pub alloc : Allocator → SignalPoolStats → ℕ → M (SignalPoolStats × Ptr × Ptr)
alloc a stats size =
    if size == 0 || ltb samples_max size then pure (note_failure stats, null, null) else do
      p ← malloc a (sample_header_size + size)
      if p == null
          then pure (note_failure stats, null, null)
          else do store p (sample_block size (replicate size 0)); pure (note_alloc stats size, p, p)

unfoldable pub release : SignalPoolStats → Ptr → M SignalPoolStats
release stats owner =
    if owner == null
    then pure stats
    else do size ← load_size owner; free owner; pure (note_release stats size)

unfoldable pub note_queue_send_failure : SignalPoolStats → SignalPoolStats
note_queue_send_failure stats = record stats {
  queue_send_failure_release_count = (stats.queue_send_failure_release_count + 1) % u32_mod;
}

unfoldable pub note_validation_failure : SignalPoolStats → SignalPoolStats
note_validation_failure stats = record stats {
  validation_failure_release_count = (stats.validation_failure_release_count + 1) % u32_mod;
}

unfoldable pub note_upload_success : SignalPoolStats → SignalPoolStats
note_upload_success stats = record stats {
  upload_success_release_count = (stats.upload_success_release_count + 1) % u32_mod;
}

unfoldable pub note_final_drop : SignalPoolStats → SignalPoolStats
note_final_drop stats = record stats {
  final_drop_release_count = (stats.final_drop_release_count + 1) % u32_mod;
}

-- A copy of the counters; what `target` held is overwritten.
unfoldable pub copy_stats : SignalPoolStats → SignalPoolStats → SignalPoolStats
copy_stats target source = source
