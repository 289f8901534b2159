-- ===== src/QueueItem/Overlay.antt =====
-- Heaps that differ from another by new blocks.
use aetus.Base.{ℕ, ◌≡◌, ◌≢◌, refl, sym, ap, ◌∙◌, Option, none, some, List, [], ◌∷◌, some-none}
use aetus.Types.{Ptr, null}
use aetus.Heap.{Allocator, Heap, Block, Content, block, write}
use aetus.Heap.Write.{write_same, write_ne, write_comm, write_undo}

abbrev pub Cells : Type 0
Cells = List (Ptr × Block)

-- The heap with these blocks added.
unfoldable pub overlay : Heap → Cells → Heap
overlay h [] = h
overlay h ((p, b) ∷ cs) = write (overlay h cs) p (some b)

abbrev pub NotIn : Ptr → Cells → Type 0
NotIn p [] = Unit
NotIn p ((q, b) ∷ cs) = (p ≢ q) × NotIn p cs

-- The blocks have addresses of their own, which were free.
abbrev pub Fresh : Heap → Cells → Type 0
Fresh h [] = Unit
Fresh h ((p, b) ∷ cs) = (p ≢ null) × (h p ≡ none) × NotIn p cs × Fresh h cs

-- What `g` holds, `h` holds too.
abbrev pub Agrees : Heap → Heap → Type 0
Agrees g h = (q : Ptr) (n : ℕ) (c : Content) → g q ≡ block n c → h q ≡ block n c

pub overlay-out : (h : Heap) (p : Ptr) (cs : Cells) → NotIn p cs → overlay h cs p ≡ h p
unfolding overlay
overlay-out h p [] out = refl
overlay-out h p ((q, b) ∷ cs) out =
    write_ne (overlay h cs) q p (some b) out.0 ∙ overlay-out h p cs out.1

pub overlay-write :
    (h : Heap) (p : Ptr) (b : Option Block) (cs : Cells)
    → NotIn p cs
    → overlay (write h p b) cs ≡ write (overlay h cs) p b
unfolding overlay
overlay-write h p b [] out = refl
overlay-write h p b ((q, c) ∷ cs) out =
    rw (overlay-write h p b cs out.1) (write_comm (overlay h cs) p q b (some c) out.0)

-- What is fresh after a block was added was fresh before, and is not that block.
pub Fresh-write :
    (h : Heap) (p : Ptr) (b : Block) (cs : Cells)
    → Fresh (write h p (some b)) cs
    → NotIn p cs × Fresh h cs
Fresh-write h p b [] f = (tt, tt)
Fresh-write h p b ((q, c) ∷ cs) (ne, free, out, f) =
    let rest = Fresh-write h p b cs f in
    let apart : p ≢ q =
      λ e. some-none (write_same h p (some b)) (ap (write h p (some b)) e ∙ free) in
    ((apart, rest.0), (ne, sym (write_ne h p q (some b) (λ e. apart (sym e))) ∙ free, out, rest.1))

pub Agrees-write :
    {g h : Heap} (p : Ptr) (b : Option Block) → Agrees g h → h p ≡ none → Agrees g (write h p b)
Agrees-write {g} {h} p b agrees free q n c e =
    let held : h q ≡ block n c = agrees q n c e in
    let apart : q ≢ p = λ same. some-none held (ap h same ∙ free) in write_ne h p q b apart ∙ held

pub overlay-here :
    (h : Heap) (p : Ptr) (b : Block) (cs : Cells) → overlay h ((p, b) ∷ cs) p ≡ some b
unfolding overlay
overlay-here h p b cs = write_same (overlay h cs) p (some b)

-- The blocks added disappear when the first is freed.
pub overlay-undo :
    (h : Heap) (p : Ptr) (b : Block) (cs : Cells)
    → Fresh h ((p, b) ∷ cs)
    → write (overlay h ((p, b) ∷ cs)) p none ≡ overlay h cs
unfolding overlay
overlay-undo h p b cs (ne, free, out, f) =
    write_undo (overlay h cs) p (some b) (overlay-out h p cs out ∙ free)

-- Two sets of new blocks can be added in either order.
pub overlay_comm :
    (h : Heap) (cs ds : Cells)
    → Fresh (overlay h cs) ds
    → overlay (overlay h cs) ds ≡ overlay (overlay h ds) cs
unfolding overlay
overlay_comm h [] ds f = refl
overlay_comm h ((p, b) ∷ cs) ds f =
    let apart = Fresh-write (overlay h cs) p b ds f in
    overlay-write (overlay h cs) p (some b) ds apart.0
    ∙ ap (λ k. write k p (some b)) (overlay_comm h cs ds apart.1)

pub Fresh-overlay : (h : Heap) (cs ds : Cells) → Fresh (overlay h cs) ds → Fresh h ds
unfolding overlay
Fresh-overlay h [] ds f = f
Fresh-overlay h ((p, b) ∷ cs) ds f = Fresh-overlay h cs ds (Fresh-write (overlay h cs) p b ds f).1

-- Blocks that were fresh stay so when others, of other addresses, are added first.
pub Fresh-past :
    (h : Heap) (cs ds : Cells) → Fresh h cs → Fresh (overlay h cs) ds → Fresh (overlay h ds) cs
unfolding overlay
Fresh-past h [] ds f g = tt
Fresh-past h ((p, b) ∷ cs) ds (ne, free, out, f) g =
    let apart = Fresh-write (overlay h cs) p b ds g in
    (ne, overlay-out h p ds apart.0 ∙ free, out, Fresh-past h cs ds f apart.1)

pub Agrees-overlay : {g h : Heap} (cs : Cells) → Agrees g h → Fresh h cs → Agrees g (overlay h cs)
unfolding overlay
Agrees-overlay [] same f = same
Agrees-overlay {g} {h} ((p, b) ∷ cs) same (ne, free, out, f) =
    Agrees-write p (some b) (Agrees-overlay cs same f) (overlay-out h p cs out ∙ free)

pub Fresh-add :
    (h : Heap) (q : Ptr) (b : Option Block) (cs : Cells)
    → NotIn q cs
    → Fresh h cs
    → Fresh (write h q b) cs
Fresh-add h q b [] out f = tt
Fresh-add h q b ((p, c) ∷ cs) out (ne, free, apart, f) =
    (ne, write_ne h q p b (λ e. out.0 (sym e)) ∙ free, apart, Fresh-add h q b cs out.1 f)

pub Fresh-NotIn :
    (h : Heap) (q : Ptr) {b : Block} (cs : Cells) → h q ≡ some b → Fresh h cs → NotIn q cs
Fresh-NotIn h q [] held f = tt
Fresh-NotIn h q ((p, c) ∷ cs) held (ne, free, apart, f) =
    ((λ e. some-none held (ap h e ∙ free)), Fresh-NotIn h q cs held f)

-- The allocator has these blocks, one after the other, each filled in before the next is taken.
abbrev pub Serves : Allocator → Heap → List Block → Type 0
Serves a h [] = Unit
Serves a h (b ∷ bs) = (a.pick h b.size ≢ null) × Serves a (write h (a.pick h b.size) (some b)) bs
