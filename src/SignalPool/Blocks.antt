-- ===== src/SignalPool/Blocks.antt =====
-- What allocating and releasing a sample block do to memory.
use aetus.Base.{
  ℕ, zero, ◌+◌, ◌≤◌, ◌<◌, ◌≡◌, ◌≢◌, ◌⊎◌, sym, ap, ◌∙◌, inl, inr, false, ◌||◌, List, none, arith,
  length-replicate, replicate, ltb, ◌==◌, Bool-cases,
}
use aetus.Types.{Ptr, null, SignalPoolStats, samples_max}
use aetus.Heap.{
  Heap, Allocator, Run, done, fault, block, write, sample_block, sample_header_size, Content,
  content_size,
}
use aetus.Heap.Write.{
  malloc-null, malloc-block, store-new, write_twice, write_undo, free-done, load_size-done,
  write_same,
}
use aetus.SignalPool.{note_alloc, note_release, note_failure, alloc, release}

abbrev pub fresh_block : ℕ → Content
fresh_block size = sample_block size (replicate size 0)

-- The two outcomes of `alloc` at a heap.
pub record IsAllocated (h : Heap) (p : Ptr) (size : ℕ) : Type 0 where
  pub ne_null : p ≢ null
  pub was_free : h p ≡ none
  pub positive : 0 < size
  pub within : size ≤ samples_max

module _ (a : Allocator) (stats : SignalPoolStats) (size : ℕ) (h : Heap) where
  abbrev place : Ptr
  place = a.pick h (sample_header_size + size)

  alloc-null : place ≡ null → alloc a stats size h ≡ done (note_failure stats, null, null) h
  unfolding alloc
  alloc-null e = ground (arith, malloc-null a h (sample_header_size + size))

  alloc-rejects :
      (size ≡ 0) ⊎ (samples_max < size)
      → alloc a stats size h ≡ done (note_failure stats, null, null) h
  unfolding alloc
  alloc-rejects out = ground arith

  alloc-block :
      0 < size
      → size ≤ samples_max
      → place ≢ null
      → alloc a stats size h
        ≡ done
            (note_alloc stats size, place, place)
            (write h place (block (sample_header_size + size) (fresh_block size)))
  unfolding alloc
  alloc-block pos within ne =
      let fits : content_size (fresh_block size) ≤ sample_header_size + size =
        omega (arith, length-replicate {0} size zero) in
      let in_range : (size == 0 || ltb samples_max size) ≡ false = ground arith in
      let nonzero : (place == 0) ≡ false = ground arith in
      rw (
        in_range,
        malloc-block a h (sample_header_size + size) ne,
        nonzero,
        store-new h place (sample_header_size + size) (fresh_block size) ne fits,
      )

pub release-block :
    (stats : SignalPoolStats) (h : Heap) (p : Ptr) {n size : ℕ} {bs : List ℕ}
    → p ≢ null
    → h p ≡ block n (sample_block size bs)
    → release stats p h ≡ done (note_release stats size) (write h p none)
unfolding release
release-block stats h p ne e =
    let nonzero : (p == 0) ≡ false = ground arith in
    rw (nonzero, load_size-done h p ne e, free-done h p ne e)

abbrev owner_of : Run (SignalPoolStats × Ptr × Ptr) → Ptr
owner_of (done (s, p, q) g) = p
owner_of fault = null

-- A size in range fails only where there is no block for it and its header.
pub alloc-in_range :
    (a : Allocator) (stats : SignalPoolStats) (size : ℕ) (h : Heap)
    → 0 < size
    → size ≤ samples_max
    → ((a.pick h (sample_header_size + size) ≡ null)
        × (alloc a stats size h ≡ done (note_failure stats, null, null) h))
      ⊎ ((p : Ptr) × IsAllocated h p size
          × (alloc a stats size h
              ≡ done
                  (note_alloc stats size, p, p)
                  (write h p (block (sample_header_size + size) (fresh_block size)))))
alloc-in_range a stats size h pos within =
    elim (Bool-cases (a.pick h (sample_header_size + size) == 0)) [
      | inl none_left ↦
          let full : a.pick h (sample_header_size + size) ≡ null = ground arith in
          inl (full, alloc-null a stats size h full)
      | inr found ↦
          let ne : a.pick h (sample_header_size + size) ≢ null = ground arith in
          inr (
            a.pick h (sample_header_size + size),
            record {
              ne_null = ne;
              was_free = a.pick_free h (sample_header_size + size) ne;
              positive = pos;
              within = within;
            },
            alloc-block a stats size h pos within ne,
          )
    ]

-- `alloc` never faults. It fails without touching memory, counting the failure, or it returns a
-- block that was free, for a size from 1 to the limit, with its header written.
pub alloc_outcome :
    (a : Allocator) (stats : SignalPoolStats) (size : ℕ) (h : Heap)
    → (alloc a stats size h ≡ done (note_failure stats, null, null) h)
      ⊎ ((p : Ptr) × IsAllocated h p size
          × (alloc a stats size h
              ≡ done
                  (note_alloc stats size, p, p)
                  (write h p (block (sample_header_size + size) (fresh_block size)))))
alloc_outcome a stats size h = elim (Bool-cases (size == 0 || ltb samples_max size)) [
  | inl out ↦ inl (alloc-rejects a stats size h (ground arith))
  | inr ok ↦ elim (alloc-in_range a stats size h (ground arith) (ground arith)) [
    | inl (full, e) ↦ inl e
    | inr block_of ↦ inr block_of
  ]
]

-- Releasing a block that `alloc` returned gives memory back as it was, whatever was written to
-- its samples in between.
pub release-alloc :
    (a : Allocator) (stats : SignalPoolStats) (size : ℕ) (h : Heap) (bs : List ℕ)
    {s : SignalPoolStats} {p q : Ptr} {g : Heap}
    → alloc a stats size h ≡ done (s, p, q) g
    → p ≢ null
    → release s p (write g p (block (sample_header_size + size) (sample_block size bs)))
      ≡ done (note_release (note_alloc stats size) size) h
release-alloc a stats size h bs {s} {p} {q} {g} e ne = elim (alloc_outcome a stats size h) [
  | inl f ↦ absurd (ne (ap owner_of (sym e ∙ f)))
  | inr (p', ok, f) ↦
      let es : s ≡ note_alloc stats size = cc in
      let ep : p ≡ p' = cc in
      let eg : g ≡ write h p' (block (sample_header_size + size) (fresh_block size)) = cc in
      rw (es, ep, eg)
        (rw
          (write_twice h p' (block (sample_header_size + size) (fresh_block size))
            (block (sample_header_size + size) (sample_block size bs)))
          (rw (release-block _ _ p' ok.ne_null (write_same h p' _)) (
            ap (done (note_release (note_alloc stats size) size)) (
              write_undo h p' (block (sample_header_size + size) (sample_block size bs))
                ok.was_free))))
]
