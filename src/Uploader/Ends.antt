-- ===== src/Uploader/Ends.antt =====
-- When the upload loop ends, and what it leaves.
use aetus.Base.{
  ℕ, ◌+◌, ◌≤◌, ◌≡◌, ◌⊎◌, inl, inr, refl, true, ap, Option, none, some, List, [], ◌∷◌, arith, length,
  length-append,
}
use aetus.Uploader.Order.{admit-items}
use aetus.Heap.{Heap, done}
use aetus.Types.{Config, QueueItem}
use aetus.Rtos.{RtosQueue}
use aetus.Hmac.{Mbedtls}
use aetus.Event.Callbacks.{Nanopb}
use aetus.Event.Encode.{Encoder}
use aetus.Uploader.{
  Fate, unencodable, returned, dropped, uploaded, Round, State, Drained, admit, kept, drain_loop,
}
use aetus.Uploader.Drains.{
  Drains, empty, exhausted, settled, requeued, lost, stays, advances, drain_loop-Drains,
}

-- The arrivals of all rounds.
unfoldable pub arrivals_count : List Round → ℕ
arrivals_count [] = 0
arrivals_count (r ∷ rs) = length r.arrivals + arrivals_count rs

-- The last item of a log went back, or was dropped.
unfoldable pub EndsFailed : List (QueueItem × Fate) → Type 0
EndsFailed [] = ⊥
EndsFailed ((x, returned) ∷ []) = Unit
EndsFailed ((x, dropped) ∷ []) = Unit
EndsFailed ((x, unencodable) ∷ log) = EndsFailed log
EndsFailed ((x, uploaded n p) ∷ log) = EndsFailed log
EndsFailed ((x, returned) ∷ _ ∷ _) = ⊥
EndsFailed ((x, dropped) ∷ _ ∷ _) = ⊥

module _ (rtos : RtosQueue) where
  kept-length :
      (q : rtos.Queue) (x : QueueItem) (o : Option rtos.Queue) → length (kept rtos q x o).1 ≤ 1
  kept-length q x none = omega arith
  kept-length q x (some r) = omega arith

  admit-length : (q : rtos.Queue) (xs : List QueueItem) → length (admit rtos q xs).1 ≤ length xs
  unfolding admit
  admit-length q [] = omega arith
  admit-length q (x ∷ xs) =
      let first = kept rtos q x (rtos.send q x 0) in
      omega (
        arith,
        kept-length q x (rtos.send q x 0),
        admit-length first.0 xs,
        length-append {0} first.1 (admit rtos first.0 xs).1,
      )

  Drains-ended :
      {Sent : ℕ → QueueItem → List ℕ → Type 0} {rs : List Round} {s : State rtos} {d : Drained rtos}
      → Drains rtos Sent rs s d
      → length (rtos.items s.queue) + arrivals_count rs + 1 ≤ length rs
      → d.ended ≡ true
  unfolding arrivals_count
  Drains-ended (empty e) le = refl
  Drains-ended exhausted le = absurd (omega arith)
  Drains-ended (settled {r} {rs} {s} {item} {q} taken counts rest) le = Drains-ended rest (
      omega (
        arith,
        ap length (rtos.receive_items s.queue q item taken),
        ap length (admit-items rtos q r.arrivals),
        admit-length q r.arrivals,
        length-append {0} (rtos.items q) (admit rtos q r.arrivals).1,
      ))
  Drains-ended (requeued taken front) le = refl
  Drains-ended (lost taken front) le = refl

  Drains-rest :
      {Sent : ℕ → QueueItem → List ℕ → Type 0} {rs : List Round} {s : State rtos} {d : Drained rtos}
      → Drains rtos Sent rs s d
      → d.ended ≡ true
      → (rtos.items d.state.queue ≡ []) ⊎ EndsFailed d.log
  unfolding EndsFailed
  Drains-rest (empty {s} e) y = inl (rtos.receive_empty s.queue e)
  Drains-rest exhausted y = absurd cc
  Drains-rest (settled taken stays rest) y = Drains-rest rest y
  Drains-rest (settled taken (advances sent) rest) y = Drains-rest rest y
  Drains-rest (requeued taken front) y = inr tt
  Drains-rest (lost taken front) y = inr tt

-- A run of the loop that does not fault, and that has a round for every item that is queued or
-- that arrives, and one more, ends before its rounds do, and either empties the queue or stops at
-- an item whose post failed.
pub drain_loop-ends :
    (rtos : RtosQueue) (md : Mbedtls) (pb : Nanopb) (enc : Encoder pb) (config : Config)
    (boot_id : List ℕ) (rounds : List Round) (s : State rtos) (h : Heap) {d : Drained rtos}
    {g : Heap}
    → length (rtos.items s.queue) + arrivals_count rounds + 1 ≤ length rounds
    → drain_loop rtos md pb enc config boot_id rounds s h ≡ done d g
    → (d.ended ≡ true) × ((rtos.items d.state.queue ≡ []) ⊎ EndsFailed d.log)
drain_loop-ends rtos md pb enc config boot_id rounds s h le e =
    let run = drain_loop-Drains rtos md pb enc config boot_id rounds s h e in
    let ended = Drains-ended rtos run le in (ended, Drains-rest rtos run ended)
