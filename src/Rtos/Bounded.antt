-- ===== src/Rtos/Bounded.antt =====
-- A list with a depth behaves as the queue is documented to.
use aetus.Base.{
  ℕ, ◌≤◌, ◌≡◌, refl, Option, none, some, List, [], ◌∷◌, ◌++◌, arith, ltb, if◌then◌else◌, length,
}
use aetus.Types.{QueueItem}

pub record Bounded : Type 0 where
  pub depth : ℕ
  pub items : List QueueItem

abbrev pub create : ℕ → Option Bounded
create n = some (record { depth = n; items = [] })

abbrev pub send : Bounded → QueueItem → ℕ → Option Bounded
send q x t =
    if ltb (length q.items) q.depth then some (record q { items = q.items ++ x ∷ [] }) else none

abbrev pub send_to_front : Bounded → QueueItem → Option Bounded
send_to_front q x =
    if ltb (length q.items) q.depth then some (record q { items = x ∷ q.items }) else none

abbrev take_first : ℕ → List QueueItem → Option (QueueItem × Bounded)
take_first d [] = none
take_first d (x ∷ xs) = some (x, record { depth = d; items = xs })

abbrev pub receive : Bounded → Option (QueueItem × Bounded)
receive q = take_first q.depth q.items

pub create_empty : (n : ℕ) (q : Bounded) → create n ≡ some q → q.items ≡ []
create_empty n q e = ground arith

pub send_items :
    (q r : Bounded) (x : QueueItem) (t : ℕ) → send q x t ≡ some r → r.items ≡ q.items ++ x ∷ []
send_items q r x t e = ground arith

pub send_full : (q : Bounded) (x : QueueItem) (t : ℕ) → send q x t ≡ none → q.depth ≤ length q.items
send_full q x t e = ground arith

pub front_items :
    (q r : Bounded) (x : QueueItem) → send_to_front q x ≡ some r → r.items ≡ x ∷ q.items
front_items q r x e = ground arith

pub front_full : (q : Bounded) (x : QueueItem) → send_to_front q x ≡ none → q.depth ≤ length q.items
front_full q x e = ground arith

first_none : (d : ℕ) (xs : List QueueItem) → take_first d xs ≡ none → xs ≡ []
first_none d [] e = refl
first_none d (x ∷ xs) e = cc

first_some :
    (d : ℕ) (xs : List QueueItem) (r : Bounded) (x : QueueItem)
    → take_first d xs ≡ some (x, r)
    → xs ≡ x ∷ r.items
first_some d [] r x e = cc
first_some d (y ∷ xs) r x e = ground arith

pub receive_empty : (q : Bounded) → receive q ≡ none → q.items ≡ []
receive_empty q e = first_none q.depth q.items e

pub receive_items :
    (q r : Bounded) (x : QueueItem) → receive q ≡ some (x, r) → q.items ≡ x ∷ r.items
receive_items q r x e = first_some q.depth q.items r x e
