-- ===== src/Uploader/Total.antt =====
-- The upload loop finishes: it does not fault on items that own their blocks, and given enough rounds
-- it comes to its end.
use aetus.Base.{◌≡◌, List, [], ◌∷◌, ◌++◌}
use aetus.Types.{Ptr, QueueItem}
use aetus.Heap.{Heap, Run, done}
use aetus.Rtos.{RtosQueue}
use aetus.Uploader.{Round, Drained}
use aetus.Uploader.Owned.{Holds}

-- A list that is another one without some of its elements.
pub data Within : List QueueItem → List QueueItem → Type 0 where
  end : Within [] []
  keep : {x : QueueItem} {xs ys : List QueueItem} → Within xs ys → Within (x ∷ xs) (x ∷ ys)
  skip : {x : QueueItem} {xs ys : List QueueItem} → Within xs ys → Within xs (x ∷ ys)

-- What arrives in all the rounds.
unfoldable pub all_arrivals : List Round → List QueueItem
all_arrivals [] = []
all_arrivals (r ∷ rs) = r.arrivals ++ all_arrivals rs

module _ (rtos : RtosQueue) where
  -- The queue and what will arrive hold their blocks.
  abbrev pub IsSound : List Round → rtos.Queue → Heap → Type 0
  IsSound rs q h = (ps : List Ptr) × Holds h (rtos.items q ++ all_arrivals rs) ps

  -- A run that finishes.
  abbrev pub Finishes : Run (Drained rtos) → Type 0
  Finishes run = (d : Drained rtos) × (g : Heap) × (run ≡ done d g)
