-- ===== src/Rtos.antt =====
-- The FreeRTOS queue, by its documented behaviour: first in, first out, up to a depth, with
-- `xQueueSendToFront` for an item that goes back. A send that waits and fails leaves the queue as it
-- was; each call is one step.
pub mod Bounded
use aetus.Base.{ℕ, ◌≤◌, ◌≡◌, Option, none, some, List, [], ◌∷◌, ◌++◌, length}
use aetus.Types.{QueueItem}

pub record RtosQueue : Type 1 where
  pub Queue : Type 0
  pub depth : Queue → ℕ
  pub items : Queue → List QueueItem
  -- `xQueueCreate`, `xQueueSend` with a timeout in ticks, `xQueueSendToFront` and `xQueueReceive`
  -- without waiting.
  pub create : ℕ → Option Queue
  pub send : Queue → QueueItem → ℕ → Option Queue
  pub send_to_front : Queue → QueueItem → Option Queue
  pub receive : Queue → Option (QueueItem × Queue)
  pub create_empty : (n : ℕ) (q : Queue) → create n ≡ some q → items q ≡ []
  pub send_items :
      (q r : Queue) (x : QueueItem) (t : ℕ) → send q x t ≡ some r → items r ≡ items q ++ x ∷ []
  pub send_full :
      (q : Queue) (x : QueueItem) (t : ℕ) → send q x t ≡ none → depth q ≤ length (items q)
  pub front_items :
      (q r : Queue) (x : QueueItem) → send_to_front q x ≡ some r → items r ≡ x ∷ items q
  pub front_full :
      (q : Queue) (x : QueueItem) → send_to_front q x ≡ none → depth q ≤ length (items q)
  pub receive_empty : (q : Queue) → receive q ≡ none → items q ≡ []
  pub receive_items :
      (q r : Queue) (x : QueueItem) → receive q ≡ some (x, r) → items q ≡ x ∷ items r
