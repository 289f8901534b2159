-- ===== src/Heap/Write.antt =====
-- What the steps on the heap do, one lemma a step.
use aetus.Base.{ℕ, ◌≤◌, ◌≡◌, ◌≢◌, ap, Option, none, List, arith, length, take}
use mathlib.Core.Path.{fun_ext}
use aetus.Types.{Ptr, null, Metric}
use aetus.Heap.{
  Heap, Block, Content, raw, bytes, metrics, sample_block, content_size, block, write, Allocator,
  done, malloc, free, store, load_bytes, load_metrics, load_array, load_size,
}

pub write_same : (h : Heap) (p : Ptr) (b : Option Block) → write h p b p ≡ b
unfolding write
write_same h p b = ground arith

pub write_ne : (h : Heap) (p q : Ptr) (b : Option Block) → q ≢ p → write h p b q ≡ h q
unfolding write
write_ne h p q b ne = ground arith

-- A block that was written and freed again leaves the heap as it was.
pub write_undo :
    (h : Heap) (p : Ptr) (b : Option Block) → h p ≡ none → write (write h p b) p none ≡ h
unfolding write
write_undo h p b e = fun_ext λ q. ground arith

pub write_twice : (h : Heap) (p : Ptr) (b c : Option Block) → write (write h p b) p c ≡ write h p c
unfolding write
write_twice h p b c = fun_ext λ q. ground arith

pub write_id : (h : Heap) (p : Ptr) (b : Option Block) → h p ≡ b → write h p b ≡ h
unfolding write
write_id h p b e = fun_ext λ q. ground arith

pub write_comm :
    (h : Heap) (p q : Ptr) (b c : Option Block)
    → p ≢ q
    → write (write h p b) q c ≡ write (write h q c) p b
unfolding write
write_comm h p q b c ne = fun_ext λ r. ground arith

module _ (h : Heap) (p : Ptr) {n : ℕ} {c : Content} (ne : p ≢ null) (e : h p ≡ block n c) where
  pub free-done : free p h ≡ done tt (write h p none)
  unfolding free
  free-done = ground arith

  pub store-done :
      (d : Content) → content_size d ≤ n → store p d h ≡ done tt (write h p (block n d))
  unfolding store
  store-done d fits = ground arith

pub load_size-done :
    (h : Heap) (p : Ptr) {n m : ℕ} {bs : List ℕ}
    → p ≢ null
    → h p ≡ block n (sample_block m bs)
    → load_size p h ≡ done m h
unfolding load_size
load_size-done h p ne e = ground arith

pub load_bytes-done :
    (h : Heap) (p : Ptr) {n : ℕ} {bs : List ℕ} (k : ℕ)
    → p ≢ null
    → h p ≡ block n (bytes bs)
    → k ≤ length bs
    → load_bytes p k h ≡ done (take k bs) h
unfolding load_bytes
load_bytes-done h p k ne e fits = ground arith

pub load_metrics-done :
    (h : Heap) (p : Ptr) {n : ℕ} {ms : List Metric}
    → p ≢ null
    → h p ≡ block n (metrics ms)
    → load_metrics p h ≡ done ms h
unfolding load_metrics
load_metrics-done h p ne e = ground arith

pub load_array-done :
    (h : Heap) (p : Ptr) (k : ℕ) {n : ℕ} {ms : List Metric}
    → p ≢ null
    → h p ≡ block n (metrics ms)
    → k ≤ n
    → load_array p k h ≡ done ms h
unfolding load_array
load_array-done h p k ne e fits = ground arith

module _ (a : Allocator) (h : Heap) (n : ℕ) where
  pub malloc-null : a.pick h n ≡ null → malloc a n h ≡ done null h
  unfolding malloc
  malloc-null e = ground arith

  pub malloc-block :
      a.pick h n ≢ null → malloc a n h ≡ done (a.pick h n) (write h (a.pick h n) (block n raw))
  unfolding malloc
  malloc-block ne = ground arith

-- A new block whose content is written at once.
pub store-new :
    (h : Heap) (p : Ptr) (n : ℕ) (c : Content)
    → p ≢ null
    → content_size c ≤ n
    → store p c (write h p (block n raw)) ≡ done tt (write h p (block n c))
store-new h p n c ne fits =
    rw (store-done (write h p (block n raw)) p ne (write_same h p (block n raw)) c fits)
      (ap (done tt) (write_twice h p (block n raw) (block n c)))

-- And which is freed.
pub free-new :
    (h : Heap) (p : Ptr) (n : ℕ) (c : Content)
    → p ≢ null
    → h p ≡ none
    → free p (write h p (block n c)) ≡ done tt h
free-new h p n c ne fresh =
    rw (free-done (write h p (block n c)) p ne (write_same h p (block n c)))
      (ap (done tt) (write_undo h p (block n c) fresh))
