-- ===== src/QueueItem/Release.antt =====
-- Releasing an item frees exactly the blocks that its copy allocated.
use aetus.Base.{
  ℕ, zero, suc, ◌≡◌, ◌≢◌, refl, sym, ap, ◌∙◌, Bool, true, false, List, [], ◌∷◌, arith, length,
}
use aetus.Types.{Ptr, null, Metric}
use aetus.Heap.{Heap, Block, done}
use aetus.Heap.Write.{free-done}
use aetus.Telemetry.{owns_blob}
use aetus.QueueItem.{needs_copy, release_blob, release_range}
use aetus.QueueItem.Overlay.{Cells, overlay, Fresh, overlay-here, overlay-undo}
use aetus.QueueItem.Copy.{Copies, stop, keep, copy, blob_block}

-- A metric that owns a block is one that is copied: bytes of no length own none.
abbrev pub AreTidy : ℕ → List Metric → Type 0
AreTidy zero ms = Unit
AreTidy (suc n) [] = Unit
AreTidy (suc n) (m ∷ ms) = (owns_blob m ≡ true → needs_copy m ≡ true) × AreTidy n ms

owns_copied :
    (m : Metric) (p : Ptr)
    → needs_copy m ≡ true
    → p ≢ null
    → owns_blob (record m { value = p }) ≡ true
owns_copied m p e ne = ground arith

release_blob-new :
    (m : Metric) (p : Ptr) (b : Block) (h : Heap) (cs : Cells)
    → needs_copy m ≡ true
    → Fresh h ((p, b) ∷ cs)
    → (m' : Metric) × (release_blob (record m { value = p }) (overlay h ((p, b) ∷ cs))
        ≡ done m' (overlay h cs))
unfolding release_blob
release_blob-new m p b h cs e f = (
  record m { value = null; blob_size = 0 },
  rw (
    owns_copied m p e f.0,
    free-done (overlay h ((p, b) ∷ cs)) p {n = b.size} {c = b.content} f.0 (overlay-here h p b cs),
    overlay-undo h p b cs f,
  ),
)

pub release_blob-keep : (m : Metric) (h : Heap) → owns_blob m ≡ false → release_blob m h ≡ done m h
unfolding release_blob
release_blob-keep m h e = rw e

not-owned : (b : Bool) {c : Bool} → c ≡ false → (b ≡ true → c ≡ true) → b ≡ false
not-owned true e f = sym (f refl) ∙ e
not-owned false e f = refl

-- The release loop over a copy gives memory back as it was.
pub release_range-Copies :
    {g : Heap} (h : Heap) {n : ℕ} {ms ms' : List Metric} {cs : Cells}
    → Copies g n ms ms' cs
    → Fresh h cs
    → AreTidy n ms
    → (rs : List Metric) × (release_range n ms' (overlay h cs) ≡ done rs h)
      × (length rs ≡ length ms)
unfolding release_range
release_range-Copies h {ms} stop f tidy = unfold overlay in (ms, refl, refl)
release_range-Copies h {cs} (keep {m} e c) f tidy =
    let (rs, run, len) = release_range-Copies h c f tidy.1 in
    let none_owned : owns_blob m ≡ false = not-owned (owns_blob m) e tidy.0 in
    (m ∷ rs, rw (release_blob-keep m (overlay h cs) none_owned, run), ap suc len)
release_range-Copies h (copy {m} {cs} p k bs e held long c) f tidy =
    let (rs, run, len) = release_range-Copies h c f.3 tidy.1 in
    let (m', freed) = release_blob-new m p (blob_block m bs) h cs e f in
    (m' ∷ rs, rw (freed, run), ap suc len)
