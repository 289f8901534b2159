-- ===== src/Uploader/Order.antt =====
-- The order in which the upload loop takes the items of its queue.
use aetus.Base.{◌≡◌, ◌≤◌, ◌⊎◌, length, refl, sym, Option, none, some, List, [], ◌∷◌, ◌++◌}
use mathlib.Core.List.{append-nil, append_assoc}
use aetus.Heap.{Heap}
use aetus.Types.{QueueItem}
use aetus.Rtos.{RtosQueue}
use aetus.Uploader.{Fate, unencodable, returned, dropped, uploaded, Drained, admit, kept}
use aetus.Uploader.Drains.{Drains}

-- The items of a log that were done with, in their order: uploaded, or not to be encoded.
unfoldable pub gone : List (QueueItem × Fate) → List QueueItem
gone [] = []
gone ((x, unencodable) ∷ log) = x ∷ gone log
gone ((x, uploaded n p) ∷ log) = x ∷ gone log
gone ((x, returned) ∷ log) = gone log
gone ((x, dropped) ∷ log) = gone log

-- Those that were dropped, and those that were put back.
unfoldable pub lost_items : List (QueueItem × Fate) → List QueueItem
lost_items [] = []
lost_items ((x, dropped) ∷ log) = x ∷ lost_items log
lost_items ((x, returned) ∷ log) = lost_items log
lost_items ((x, unencodable) ∷ log) = lost_items log
lost_items ((x, uploaded n p) ∷ log) = lost_items log

unfoldable pub put_back : List (QueueItem × Fate) → List QueueItem
put_back [] = []
put_back ((x, returned) ∷ log) = x ∷ put_back log
put_back ((x, dropped) ∷ log) = put_back log
put_back ((x, unencodable) ∷ log) = put_back log
put_back ((x, uploaded n p) ∷ log) = put_back log

module _ (rtos : RtosQueue) where
  kept-items :
      (q : rtos.Queue) (x : QueueItem) (o : Option rtos.Queue)
      → rtos.send q x 0 ≡ o
      → rtos.items (kept rtos q x o).0 ≡ rtos.items q ++ (kept rtos q x o).1
  kept-items q x none e = sym (append-nil (rtos.items q))
  kept-items q x (some r) e = rtos.send_items q r x 0 e

  pub admit-items :
      (q : rtos.Queue) (xs : List QueueItem)
      → rtos.items (admit rtos q xs).0 ≡ rtos.items q ++ (admit rtos q xs).1
  unfolding admit
  admit-items q [] = sym (append-nil (rtos.items q))
  admit-items q (x ∷ xs) =
      let first = kept rtos q x (rtos.send q x 0) in
      rw (admit-items first.0 xs, kept-items q x (rtos.send q x 0) refl)
        (append_assoc (rtos.items q) first.1 (admit rtos first.0 xs).1)

  -- What a run has to keep: the order of the items, a drop only at a full queue, and an item that was
  -- put back at the front.
  pub record IsOrdered (before : List QueueItem) (d : Drained rtos) : Type 0 where
    pub order : before ++ d.admitted ≡ gone d.log ++ (lost_items d.log ++ rtos.items d.state.queue)
    pub drops :
        (lost_items d.log ≡ [])
        ⊎ ((x : QueueItem) × (lost_items d.log ≡ x ∷ [])
            × (rtos.depth d.state.queue ≤ length (rtos.items d.state.queue)))
    pub first_again : (rest : List QueueItem) × (rtos.items d.state.queue ≡ put_back d.log ++ rest)
