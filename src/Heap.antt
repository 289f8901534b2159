-- ===== src/Heap.antt =====
-- The memory that the component's pointers lead to: blocks by address, each with its size and what
-- is stored in it, and the steps that read, write, allocate and free. FreeRTOS chooses the address of
-- a new block, so `pvPortMalloc` is a parameter. A step through a pointer to no block, beyond the end
-- of one, or that frees what is not allocated, is a fault.
pub mod Write
use aetus.Base.{
  ℕ, ◌+◌, ◌*◌, ◌≡◌, ◌≢◌, Option, none, some, List, leb, ◌==◌, if◌then◌else◌, length, take, ltb,
}
use aetus.Types.{Ptr, null, Metric}
use aetus.CString.{c_str}

pub data Content : Type 0 where
  raw : Content
  bytes : List ℕ → Content
  metrics : List Metric → Content
  sample_block : ℕ → List ℕ → Content

pub record Block : Type 0 where
  pub size : ℕ
  pub content : Content

abbrev pub Heap : Type 0
Heap = Ptr → Option Block

abbrev pub metric_size : ℕ
metric_size = 48

abbrev pub sample_header_size : ℕ
sample_header_size = 4

abbrev pub content_size : Content → ℕ
content_size raw = 0
content_size (bytes bs) = length bs
content_size (metrics ms) = length ms * metric_size
content_size (sample_block n bs) = sample_header_size + length bs

abbrev pub block : ℕ → Content → Option Block
block n c = some (record { size = n; content = c })

unfoldable pub write : Heap → Ptr → Option Block → Heap
write h p b q = if q == p then b else h q

-- `pvPortMalloc`: the address that it chooses for a size, or `NULL`. What it returns was free.
pub record Allocator : Type 0 where
  pub pick : Heap → ℕ → Ptr
  pub pick_free : (h : Heap) (n : ℕ) → pick h n ≢ null → h (pick h n) ≡ none

pub data Run (A : Type 0) : Type 0 where
  done : A → Heap → Run A
  fault : Run A

abbrev pub M : Type 0 → Type 0
M A = Heap → Run A

abbrev pub and_then : {A B : Type 0} → Run A → (A → M B) → Run B
and_then (done a h) f = f a h
and_then fault f = fault

infixl 5 ◌>>=◌ ◌>>◌
abbrev pub ◌>>=◌ : {X Y : Type 0} → M X → (X → M Y) → M Y
(step >>= next) heap = and_then (step heap) next

abbrev pub ◌>>◌ : {Y : Type 0} → M (Unit {0}) → M Y → M Y
step >> next = step >>= λ finished. next

abbrev pub pure : {A : Type 0} → A → M A
pure a h = done a h

abbrev pub failed : {A : Type 0} → M A
failed h = fault

unfoldable pub malloc : Allocator → ℕ → M Ptr
unfolding write
malloc a n h =
    if a.pick h n == null
    then done null h
    else done (a.pick h n) (write h (a.pick h n) (block n raw))

-- The block at a pointer that is not `NULL`.
abbrev pub block_at : Heap → Ptr → Option Block
block_at h p = if p == null then none else h p

abbrev free_block : Heap → Ptr → Option Block → Run (Unit {0})
free_block h p none = fault
free_block h p (some b) = done tt (write h p none)

unfoldable pub free : Ptr → M (Unit {0})
unfolding write
free p h = free_block h p (block_at h p)

-- A write of the whole content of a block.
abbrev store_block : Heap → Ptr → Content → Option Block → Run (Unit {0})
store_block h p c none = fault
store_block h p c (some b) =
    if leb (content_size c) b.size then done tt (write h p (block b.size c)) else fault

unfoldable pub store : Ptr → Content → M (Unit {0})
unfolding write
store p c h = store_block h p c (block_at h p)

-- A read of `n` bytes.
abbrev take_bytes : Heap → ℕ → Content → Run (List ℕ)
take_bytes h n (bytes bs) = if leb n (length bs) then done (take n bs) h else fault
take_bytes h n (sample_block m bs) = if leb n (length bs) then done (take n bs) h else fault
take_bytes h n _ = fault

abbrev load_bytes_in : Heap → ℕ → Option Block → Run (List ℕ)
load_bytes_in h n none = fault
load_bytes_in h n (some b) = take_bytes h n b.content

unfoldable pub load_bytes : Ptr → ℕ → M (List ℕ)
load_bytes p n h = load_bytes_in h n (block_at h p)

-- A read of an array of metrics.
abbrev metrics_in : Heap → Content → Run (List Metric)
metrics_in h (metrics ms) = done ms h
metrics_in h _ = fault

abbrev load_metrics_in : Heap → Option Block → Run (List Metric)
load_metrics_in h none = fault
load_metrics_in h (some b) = metrics_in h b.content

unfoldable pub load_metrics : Ptr → M (List Metric)
load_metrics p h = load_metrics_in h (block_at h p)

-- A copy of the `n` bytes at an array of metrics, which must stand inside the block.
abbrev load_array_in : Heap → ℕ → Option Block → Run (List Metric)
load_array_in h n none = fault
load_array_in h n (some b) = if leb n b.size then metrics_in h b.content else fault

unfoldable pub load_array : Ptr → ℕ → M (List Metric)
load_array p n h = load_array_in h n (block_at h p)

-- A read of the `size` field of a sample block.
abbrev size_in : Heap → Content → Run ℕ
size_in h (sample_block n bs) = done n h
size_in h _ = fault

abbrev load_size_in : Heap → Option Block → Run ℕ
load_size_in h none = fault
load_size_in h (some b) = size_in h b.content

unfoldable pub load_size : Ptr → M ℕ
load_size p h = load_size_in h (block_at h p)

-- A read of a string, up to its terminator, which must stand inside the block.
abbrev string_in : Heap → List ℕ → Run (List ℕ)
string_in h bs = if ltb (length (c_str bs)) (length bs) then done (c_str bs) h else fault

abbrev load_string_in : Heap → Option Block → Run (List ℕ)
load_string_in h none = fault
load_string_in h (some b) = string_of h b.content
  where
    string_of : Heap → Content → Run (List ℕ)
    string_of h (bytes bs) = string_in h bs
    string_of h _ = fault

unfoldable pub load_c_str : Ptr → M (List ℕ)
load_c_str p h = load_string_in h (block_at h p)
