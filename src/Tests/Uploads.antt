-- ===== src/Tests/Uploads.antt =====
-- The upload loop on a queue of two items, with a third that arrives while the second fails.
use aetus.Base.{ℕ, true, List, [], ◌∷◌}
use aetus.Types.{QueueItem, zero_stats}
use aetus.Esp.{esp_ok}
use aetus.Uploader.{returned, uploaded, Round, State, Drained}
use aetus.Tests.Toys.{list_queue, status_of}

abbrev pub answered : ℕ → List QueueItem → Round
answered code new = record {
  uptime_ms = 5;
  arrivals = new;
  answer = record { client = true; code = esp_ok; status = code };
}

abbrev four_rounds : List Round
four_rounds =
    answered 200 [] ∷ answered 503 (status_of 3 ∷ []) ∷ answered 200 [] ∷ answered 200 [] ∷ []

abbrev two_queued : State list_queue
two_queued = record {
  queue = record { depth = 4; items = status_of 1 ∷ status_of 2 ∷ [] };
  sequence = 7;
  stats = zero_stats;
}

abbrev first_payload : List ℕ
first_payload = 7 ∷ []

abbrev one_uploaded : Drained list_queue
one_uploaded = record {
  state = record {
    queue = record { depth = 4; items = status_of 2 ∷ status_of 3 ∷ [] };
    sequence = 8;
    stats = zero_stats;
  };
  log = (status_of 1, uploaded 7 first_payload) ∷ (status_of 2, returned) ∷ [];
  admitted = status_of 3 ∷ [];
  ended = true;
}
