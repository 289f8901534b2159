-- ===== src/QueueItem/Copy.antt =====
-- The copy loop: what it leaves in memory and in the item.
use aetus.Base.{
  ℕ, zero, suc, ◌≤◌, ◌≡◌, ◌≢◌, refl, ap, ◌∙◌, inl, inr, Bool, true, false, Option, none, some,
  subst, if◌then◌else◌, ◌++◌, List, [], ◌∷◌, arith, ◌==◌, Bool-cases, length, length-take, take,
  ==-ne, ne-==, ==_iff, some-none,
}
use aetus.Types.{Ptr, null, Metric}
use aetus.Heap.{Heap, Content, Allocator, Block, done, block, write, bytes, raw}
use aetus.Heap.Write.{malloc-null, malloc-block, store-new, load_bytes-done, write_ne}
use aetus.QueueItem.{needs_copy, copy_size, copy_blob, copy_range, copy_heap_metrics}
use aetus.QueueItem.Overlay.{
  Serves, Cells, overlay, Fresh, Agrees, overlay-write, Fresh-write, Agrees-write,
}

-- A blob that can be copied: its block holds the bytes that the copy reads.
abbrev pub CanCopy : Heap → Metric → Type 0
CanCopy h m =
    needs_copy m ≡ true
    → (n : ℕ) × (bs : List ℕ) × (h m.value ≡ block n (bytes bs)) × (copy_size m ≤ length bs)

-- The first metrics of an array, all of which can be copied.
abbrev pub CanCopyAll : Heap → ℕ → List Metric → Type 0
CanCopyAll h zero ms = Unit
CanCopyAll h (suc n) [] = ⊥
CanCopyAll h (suc n) (m ∷ ms) = CanCopy h m × CanCopyAll h n ms

-- The block of a copy, with the bytes that are copied.
abbrev pub blob_block : Metric → List ℕ → Block
blob_block m bs = record { size = copy_size m; content = bytes (take (copy_size m) bs) }

-- What a block holds.
abbrev pub bytes_in : Content → List ℕ
bytes_in (bytes bs) = bs
bytes_in _ = []

abbrev pub bytes_at : Option Block → List ℕ
bytes_at none = []
bytes_at (some b) = bytes_in b.content

-- The blocks that a copy of the first `n` metrics takes, in their order.
unfoldable pub blob_blocks : Heap → ℕ → List Metric → List Block
blob_blocks h zero ms = []
blob_blocks h (suc n) [] = []
blob_blocks h (suc n) (m ∷ ms) =
    (if needs_copy m then blob_block m (bytes_at (h m.value)) ∷ [] else []) ++ blob_blocks h n ms

blob_blocks-keep :
    (h : Heap) (n : ℕ) (m : Metric) (ms : List Metric)
    → needs_copy m ≡ false
    → blob_blocks h (suc n) (m ∷ ms) ≡ blob_blocks h n ms
unfolding blob_blocks
blob_blocks-keep h n m ms e = rw e refl

blob_blocks-copy :
    (h : Heap) (n : ℕ) (m : Metric) (ms : List Metric)
    → needs_copy m ≡ true
    → blob_blocks h (suc n) (m ∷ ms) ≡ blob_block m (bytes_at (h m.value)) ∷ blob_blocks h n ms
unfolding blob_blocks
blob_blocks-copy h n m ms e = rw e refl

-- The first `n` metrics of the second array are those of the first, but each blob is a block of its
-- own that holds the same bytes: the new blocks, in order.
pub data Copies (h : Heap) : ℕ → List Metric → List Metric → Cells → Type 0 where
  stop : {ms : List Metric} → Copies h zero ms ms []
  keep :
      {n : ℕ} {m : Metric} {ms ms' : List Metric} {cs : Cells}
      → needs_copy m ≡ false
      → Copies h n ms ms' cs
      → Copies h (suc n) (m ∷ ms) (m ∷ ms') cs
  copy :
      {n : ℕ} {m : Metric} {ms ms' : List Metric} {cs : Cells} (p : Ptr) (k : ℕ) (bs : List ℕ)
      → needs_copy m ≡ true
      → h m.value ≡ block k (bytes bs)
      → copy_size m ≤ length bs
      → Copies h n ms ms' cs
      → Copies h (suc n) (m ∷ ms) (record m { value = p } ∷ ms') ((p, blob_block m bs) ∷ cs)

module _ (a : Allocator) (m : Metric) (h : Heap) where
  copy_blob-keep : needs_copy m ≡ false → copy_blob a m h ≡ done (false, m) h
  unfolding copy_blob
  copy_blob-keep e = rw e

  pub copy_blob-full :
      needs_copy m ≡ true → a.pick h (copy_size m) ≡ null → copy_blob a m h ≡ done (true, m) h
  unfolding copy_blob
  copy_blob-full e full = rw (e, malloc-null a h (copy_size m) full)

  copy_blob-copy :
      {k : ℕ} {bs : List ℕ}
      → needs_copy m ≡ true
      → a.pick h (copy_size m) ≢ null
      → m.value ≢ null
      → h m.value ≡ block k (bytes bs)
      → copy_size m ≤ length bs
      → copy_blob a m h
        ≡ done
            (false, record m { value = a.pick h (copy_size m) })
            (write h (a.pick h (copy_size m)) (block (copy_size m) (bytes (take (copy_size m) bs))))
  unfolding copy_blob
  copy_blob-copy {k} {bs} e ne src held long =
      let p = a.pick h (copy_size m) in
      let apart : m.value ≢ p =
        λ same. some-none held (ap h same ∙ a.pick_free h (copy_size m) ne) in
      let kept = write_ne h p m.value (block (copy_size m) raw) apart ∙ held in
      let fits : length (take (copy_size m) bs) ≤ copy_size m =
        omega (arith, length-take {0} (copy_size m) bs) in
      rw (e, malloc-block a h (copy_size m) ne, ne-== p null ne)
        (rw
          (load_bytes-done (write h p (block (copy_size m) raw)) m.value (copy_size m) src kept
            long)
          (rw (store-new h p (copy_size m) (bytes (take (copy_size m) bs)) ne fits)))

-- How the loop ends: with new blocks only, and with a copy of the metrics unless it failed.
pub record Outcome (a : Allocator) (g h : Heap) (n : ℕ) (ms : List Metric) : Type 0 where
  pub gave_up : Bool
  pub copied : List Metric
  pub cells : Cells
  pub runs : copy_range a n ms h ≡ done (gave_up, copied) (overlay h cells)
  pub fresh : Fresh h cells
  pub copies : gave_up ≡ false → Copies g n ms copied cells
  pub size : length copied ≡ length ms
  pub reason : gave_up ≡ true → (bs : List Block) → ¬ Serves a h (blob_blocks g n ms ++ bs)
  pub served :
      gave_up ≡ false
      → (bs : List Block) → Serves a h (blob_blocks g n ms ++ bs)
      → Serves a (overlay h cells) bs

needs_copy-ne_null : (m : Metric) → needs_copy m ≡ true → m.value ≢ null
needs_copy-ne_null m e = ground arith

module _ (a : Allocator) (g : Heap) where
  Outcome-full :
      (n : ℕ) (m : Metric) (ms : List Metric) (h : Heap)
      → needs_copy m ≡ true
      → a.pick h (copy_size m) ≡ null
      → Outcome a g h (suc n) (m ∷ ms)
  unfolding copy_range overlay
  Outcome-full n m ms h e full = record {
    gave_up = true;
    copied = m ∷ ms;
    cells = [];
    runs = rw (copy_blob-full a m h e full);
    fresh = tt;
    copies = λ f. cc;
    size = refl;
    reason = λ f bs s. (subst (λ xs. Serves a h (xs ++ bs)) (blob_blocks-copy g n m ms e) s).0 full;
    served = λ f. cc;
  }

  Outcome-copy :
      (n : ℕ) (m : Metric) (ms : List Metric) (h : Heap) (k : ℕ) (bs : List ℕ)
      → Agrees g h
      → needs_copy m ≡ true
      → a.pick h (copy_size m) ≢ null
      → g m.value ≡ block k (bytes bs)
      → copy_size m ≤ length bs
      → Outcome a g (write h (a.pick h (copy_size m)) (some (blob_block m bs))) n ms
      → Outcome a g h (suc n) (m ∷ ms)
  unfolding copy_range overlay
  Outcome-copy n m ms h k bs same e ne held long rest =
      let p = a.pick h (copy_size m) in
      let apart = Fresh-write h p (blob_block m bs) rest.cells rest.fresh in
      let held_now = same m.value k (bytes bs) held in
      let takes : blob_blocks g (suc n) (m ∷ ms) ≡ blob_block m bs ∷ blob_blocks g n ms =
        blob_blocks-copy g n m ms e
        ∙ ap (λ b. blob_block m (bytes_at b) ∷ blob_blocks g n ms) held in
      let rest_served : (ss : List Block)
          → Serves a h (blob_blocks g (suc n) (m ∷ ms) ++ ss)
          → Serves a (write h p (some (blob_block m bs))) (blob_blocks g n ms ++ ss) =
        λ ss s. (subst (λ xs. Serves a h (xs ++ ss)) takes s).1 in
      record {
        gave_up = rest.gave_up;
        copied = record m { value = p } ∷ rest.copied;
        cells = (p, blob_block m bs) ∷ rest.cells;
        runs =
            rw (copy_blob-copy a m h e ne (needs_copy-ne_null m e) held_now long, rest.runs)
              (ap (done (rest.gave_up, record m { value = p } ∷ rest.copied))
                (overlay-write h p (some (blob_block m bs)) rest.cells apart.0));
        fresh = (ne, a.pick_free h (copy_size m) ne, apart.0, apart.1);
        copies = λ f. copy p k bs e held long (rest.copies f);
        size = ap suc rest.size;
        reason = λ f ss s. rest.reason f ss (rest_served ss s);
        served = λ f ss s.
            subst (λ k. Serves a k ss)
              (overlay-write h p (some (blob_block m bs)) rest.cells apart.0)
              (rest.served f ss (rest_served ss s));
      }

  pub copy_range-Outcome :
      (n : ℕ) (ms : List Metric) (h : Heap) → Agrees g h → CanCopyAll g n ms → Outcome a g h n ms
  unfolding copy_range overlay
  copy_range-Outcome zero ms h same ok = record {
    gave_up = false;
    copied = ms;
    cells = [];
    runs = refl;
    fresh = tt;
    copies = λ e. stop;
    size = refl;
    reason = λ e. cc;
    served = λ e bs s. unfold blob_blocks in s;
  }
  copy_range-Outcome (suc n) [] h same ok = absurd ok
  copy_range-Outcome (suc n) (m ∷ ms) h same ok = elim (Bool-cases (needs_copy m)) [
    | inl e ↦
        let (k, bs, held, long) = ok.0 e in
        let p = a.pick h (copy_size m) in
        elim (Bool-cases (p == null)) [
          | inl full ↦ Outcome-full n m ms h e ((==_iff p null).0 full)
          | inr found ↦
              let ne = ==-ne p null found in
              let free = a.pick_free h (copy_size m) ne in
              Outcome-copy n m ms h k bs same e ne held long (
                copy_range-Outcome n ms (write h p (some (blob_block m bs)))
                  (Agrees-write p (some (blob_block m bs)) same free) ok.1)
        ]
    | inr e ↦
        let rest = copy_range-Outcome n ms h same ok.1 in
        record {
          gave_up = rest.gave_up;
          copied = m ∷ rest.copied;
          cells = rest.cells;
          runs = rw (copy_blob-keep a m h e, rest.runs);
          fresh = rest.fresh;
          copies = λ f. keep e (rest.copies f);
          size = ap suc rest.size;
          reason = λ f bs s.
              rest.reason f bs
                (subst (λ xs. Serves a h (xs ++ bs)) (blob_blocks-keep g n m ms e) s);
          served = λ f bs s.
              rest.served f bs
                (subst (λ xs. Serves a h (xs ++ bs)) (blob_blocks-keep g n m ms e) s);
        }
  ]

pub copy_heap_metrics-null :
    (a : Allocator) (p : Ptr) (h : Heap) → p ≡ null → copy_heap_metrics a p h ≡ done (false, null) h
unfolding copy_heap_metrics
copy_heap_metrics-null a p h e = ground arith
