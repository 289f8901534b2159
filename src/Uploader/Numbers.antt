-- ===== src/Uploader/Numbers.antt =====
-- The sequence numbers of the events that the upload loop uploads.
use aetus.Base.{ℕ, zero, suc, ◌+◌, ◌%◌, List, [], ◌∷◌}
use aetus.Heap.{Heap}
use aetus.Types.{QueueItem, u64_mod}
use aetus.Uploader.{Fate, unencodable, returned, dropped, uploaded}
use aetus.Uploader.Drains.{Drains, Sent}

-- What an upload has to be, for each of a log.
unfoldable pub IsSent : (ℕ → QueueItem → List ℕ → Type 0) → List (QueueItem × Fate) → Type 0
IsSent Sent [] = Unit
IsSent Sent ((x, uploaded n p) ∷ log) = Sent n x p × IsSent Sent log
IsSent Sent ((x, unencodable) ∷ log) = IsSent Sent log
IsSent Sent ((x, returned) ∷ log) = IsSent Sent log
IsSent Sent ((x, dropped) ∷ log) = IsSent Sent log

-- The numbers under which the items of a log are uploaded.
unfoldable pub numbers : List (QueueItem × Fate) → List ℕ
numbers [] = []
numbers ((x, uploaded n p) ∷ log) = n ∷ numbers log
numbers ((x, unencodable) ∷ log) = numbers log
numbers ((x, returned) ∷ log) = numbers log
numbers ((x, dropped) ∷ log) = numbers log

-- The next numbers of a 64-bit counter.
unfoldable pub count_from : ℕ → ℕ → List ℕ
count_from n zero = []
count_from n (suc k) = n ∷ count_from ((n + 1) % u64_mod) k

-- The counter after some steps.
unfoldable pub advance : ℕ → ℕ → ℕ
advance n zero = n
advance n (suc k) = advance ((n + 1) % u64_mod) k
