-- ===== src/Uploader/Drains.antt =====
-- The runs of the upload loop as a relation between the state before it and what it leaves, which
-- forgets memory and the bytes that are sent.
use aetus.Base.{
  ℕ, ◌+◌, ◌%◌, ◌≡◌, refl, subst, ap, inl, inr, Bool-cases, true, false, Option, none, some, List,
  [], ◌∷◌,
}
use aetus.Types.{u64_mod, SignalPoolStats, QueueItem, Config}
use aetus.Esp.{is_ok}
use aetus.Heap.{Heap, Run, M, done, fault, and_then}
use aetus.Rtos.{RtosQueue}
use aetus.Hmac.{Mbedtls}
use aetus.Event.Callbacks.{Nanopb}
use aetus.Event.Encode.{Encoder, encode_queue_item}
use aetus.Uploader.{
  Fate, unencodable, returned, dropped, uploaded, Round, State, Drained, admit, halt, push,
  out_of_rounds, source, encode_buffer_bytes, requeue, settle, take_item, drain_loop,
  release_queue_item, note_if_frame,
}
use aetus.SignalPool.{note_validation_failure, note_upload_success, note_final_drop}
use aetus.Post.{HttpAnswer, post_payload}
use aetus.Event.{Source, fill_event_header}

-- What the number of the next event is after an item that is done with; `Sent` says what an upload
-- under a number is.
pub data Counts (Sent : ℕ → QueueItem → List ℕ → Type 0) (x : QueueItem)
    : ℕ → Fate → ℕ → Type 0 where
  stays : {n : ℕ} → Counts Sent x n unencodable n
  advances :
      {n : ℕ} {payload : List ℕ}
      → Sent n x payload
      → Counts Sent x n (uploaded n payload) ((n + 1) % u64_mod)

pub data Drains (rtos : RtosQueue) (Sent : ℕ → QueueItem → List ℕ → Type 0)
    : List Round → State rtos → Drained rtos → Type 0 where
  empty :
      {rs : List Round} {s : State rtos}
      → rtos.receive s.queue ≡ none
      → Drains rtos Sent rs s (halt rtos s [] [] true)
  exhausted : {s : State rtos} → Drains rtos Sent [] s (halt rtos s [] [] false)
  settled :
      {r : Round} {rs : List Round} {s : State rtos} {item : QueueItem} {q : rtos.Queue}
      {fate : Fate} {n : ℕ} {stats : SignalPoolStats} {d : Drained rtos}
      → rtos.receive s.queue ≡ some (item, q)
      → Counts Sent item s.sequence fate n
      → Drains rtos Sent rs
          (record { queue = (admit rtos q r.arrivals).0; sequence = n; stats = stats })
          d
      → Drains rtos Sent (r ∷ rs) s (push rtos item fate (admit rtos q r.arrivals).1 d)
  requeued :
      {r : Round} {rs : List Round} {s : State rtos} {item : QueueItem} {q q' : rtos.Queue}
      → rtos.receive s.queue ≡ some (item, q)
      → rtos.send_to_front (admit rtos q r.arrivals).0 item ≡ some q'
      → Drains rtos Sent (r ∷ rs) s (
          halt rtos
            (record s { queue = q' })
            ((item, returned) ∷ [])
            (admit rtos q r.arrivals).1
            true)
  lost :
      {r : Round} {rs : List Round} {s : State rtos} {item : QueueItem} {q : rtos.Queue}
      {stats : SignalPoolStats}
      → rtos.receive s.queue ≡ some (item, q)
      → rtos.send_to_front (admit rtos q r.arrivals).0 item ≡ none
      → Drains rtos Sent (r ∷ rs) s (
          halt rtos
            (record s { queue = (admit rtos q r.arrivals).0; stats = stats })
            ((item, dropped) ∷ [])
            (admit rtos q r.arrivals).1
            true)

-- Two steps that finish: the first one does.
and_then_done :
    {A B : Type 0} (m : Run A) {f : A → M B} {b : B} {g : Heap}
    → and_then m f ≡ done b g
    → (a : A) × (h : Heap) × (m ≡ done a h) × (f a h ≡ done b g)
and_then_done (done a h) e = (a, h, refl, e)
and_then_done fault e = cc

abbrev value_or : {A : Type 0} → A → Run A → A
value_or d (done a h) = a
value_or d fault = d

done_value : {A : Type 0} {a b : A} {g h : Heap} → done a g ≡ done b h → a ≡ b
done_value {a} e = ap (value_or a) e

module _ (rtos : RtosQueue) (md : Mbedtls) (pb : Nanopb) (enc : Encoder pb) (config : Config)
    (boot_id : List ℕ) where
  -- The payload is an encoding of the item with this number in the header of its event, and was posted
  -- with success.
  abbrev pub Sent : ℕ → QueueItem → List ℕ → Type 0
  Sent n x payload =
      (ctx : Source) × (h : Heap) × (g : Heap) × (answer : HttpAnswer) × ((fill_event_header
          ctx).sequence
        ≡ n)
      × (encode_queue_item pb enc ctx x encode_buffer_bytes h ≡ done (some payload) g)
      × (is_ok (post_payload md config payload answer) ≡ true)

  requeue-Drains :
      {r : Round} {rs : List Round} (s : State rtos) (item : QueueItem) {q : rtos.Queue}
      (o : Option rtos.Queue) (h : Heap) {d : Drained rtos} {g : Heap}
      → rtos.receive s.queue ≡ some (item, q)
      → rtos.send_to_front (admit rtos q r.arrivals).0 item ≡ o
      → requeue rtos md pb enc config boot_id s item (admit rtos q r.arrivals) o h ≡ done d g
      → Drains rtos Sent (r ∷ rs) s d
  requeue-Drains {r} {rs} s item (some q') h taken front e =
      subst (Drains rtos Sent (r ∷ rs) s) (done_value e) (requeued taken front)
  requeue-Drains {r} {rs} s item none h taken front e =
      let (a, h', e₁, e₂) =
        and_then_done (release_queue_item (note_if_frame note_final_drop item s.stats) item h) e in
      subst (Drains rtos Sent (r ∷ rs) s) (done_value e₂) (lost taken front)

  -- What the rest of the loop is known to do.
  abbrev Follows : List Round → (State rtos → M (Drained rtos)) → Type 0
  Follows rs next =
      (s : State rtos) (h : Heap) (d : Drained rtos) (g : Heap)
      → next s h ≡ done d g
      → Drains rtos Sent rs s d

  settle-Drains :
      (next : State rtos → M (Drained rtos)) (r : Round) {rs : List Round} (s : State rtos)
      (item : QueueItem) {q : rtos.Queue} (payload : Option (List ℕ)) (k h : Heap)
      {d : Drained rtos} {g : Heap}
      → encode_queue_item pb enc
          (source rtos md pb enc config boot_id s r)
          item
          encode_buffer_bytes
          k
        ≡ done payload h
      → Follows rs next
      → rtos.receive s.queue ≡ some (item, q)
      → settle rtos md pb enc config boot_id next r s item (admit rtos q r.arrivals) payload h
        ≡ done d g
      → Drains rtos Sent (r ∷ rs) s d
  unfolding fill_event_header
  settle-Drains next r {rs} s item none k h encoded follows taken e =
      let (a, h', e₁, e₂) =
        and_then_done
          (release_queue_item (note_if_frame note_validation_failure item s.stats) item h) e in
      let (d', h'', f₁, f₂) = and_then_done (next _ h') e₂ in
      subst (Drains rtos Sent (r ∷ rs) s) (done_value f₂)
        (settled taken stays (follows _ h' _ _ f₁))
  settle-Drains next r {rs} s item {q} (some payload) k h {d} {g} encoded follows taken e =
      elim (Bool-cases (is_ok (post_payload md config payload r.answer))) [
        | inl y ↦
            let e₀ = rw y at e in
            let (a, h', e₁, e₂) =
              and_then_done
                (release_queue_item (note_if_frame note_upload_success item s.stats) item h) e₀ in
            let (d', h'', f₁, f₂) = and_then_done (next _ h') e₂ in
            subst (Drains rtos Sent (r ∷ rs) s) (done_value f₂) (
              settled taken
                (advances
                  (source rtos md pb enc config boot_id s r, k, h, r.answer, refl, encoded, y))
                (follows _ h' _ _ f₁))
        | inr n ↦ requeue-Drains s item _ h taken refl (rw n at e)
      ]

  take_item-Drains :
      (next : State rtos → M (Drained rtos)) (r : Round) {rs : List Round} (s : State rtos)
      (o : Option (QueueItem × rtos.Queue)) (h : Heap) {d : Drained rtos} {g : Heap}
      → Follows rs next
      → rtos.receive s.queue ≡ o
      → take_item rtos md pb enc config boot_id next r s o h ≡ done d g
      → Drains rtos Sent (r ∷ rs) s d
  take_item-Drains next r {rs} s none h follows taken e =
      subst (Drains rtos Sent (r ∷ rs) s) (done_value e) (empty taken)
  take_item-Drains next r {rs} s (some (item, q)) h follows taken e =
      let (payload, h', e₁, e₂) =
        and_then_done
          (encode_queue_item pb enc (source rtos md pb enc config boot_id s r) item
            encode_buffer_bytes h)
          e in
      settle-Drains next r s item payload h h' e₁ follows taken e₂

  out-Drains :
      (s : State rtos) (o : Option (QueueItem × rtos.Queue)) {d : Drained rtos}
      → rtos.receive s.queue ≡ o
      → out_of_rounds rtos md pb enc config boot_id s o ≡ d
      → Drains rtos Sent [] s d
  out-Drains s none taken e = subst (Drains rtos Sent [] s) e (empty taken)
  out-Drains s (some x) taken e = subst (Drains rtos Sent [] s) e exhausted

  pub drain_loop-Drains :
      (rounds : List Round) (s : State rtos) (h : Heap) {d : Drained rtos} {g : Heap}
      → drain_loop rtos md pb enc config boot_id rounds s h ≡ done d g
      → Drains rtos Sent rounds s d
  unfolding drain_loop
  drain_loop-Drains [] s h e = out-Drains s _ refl (done_value e)
  drain_loop-Drains (r ∷ rs) s h e =
      take_item-Drains (drain_loop rtos md pb enc config boot_id rs) r s _ h
        (λ t k d g. drain_loop-Drains rs t k) refl e
