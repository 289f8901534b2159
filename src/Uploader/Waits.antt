-- ===== src/Uploader/Waits.antt =====
-- What a flush may rely on, over any interleaving of the uploader task, its timer, the flush and
-- those of another task.
use aetus.Base.{
  ℕ, ◌+◌, ◌<◌, ◌≤◌, ◌≡◌, ◌⊎◌, refl, ap, ◌∙◌, true, false, Bool-cases, subst, inl, inr, arith,
}
use aetus.Esp.{esp_ok, timeout}
use aetus.Uploader.Flush.{
  Bits, World, Task, Caller, waiting, draining, outside, cleared, flushing, returned, Step, ticks,
  wakes, finishes, clears, sets, returns, other_clears, other_sets, other_returns, Reaches, here,
  next, upload_timer_callback, uploader_wakes, drain_done, flush_clears, flush_sets, flush_waited,
}

abbrev pub running : Task → ℕ
running waiting = 0
running draining = 1

-- What the caller may rely on: a done bit that is set since it cleared it is right.
abbrev pub Promise : World → Caller → Type 0
Promise w outside = Unit
Promise w cleared = w.bits.done ≡ true → w.ended_before < w.ended
Promise w flushing = w.bits.done ≡ true → w.ended_before < w.ended
Promise w (returned code) = code ≡ esp_ok → w.ended_before < w.ended

pub record IsCounted (w : World) : Type 0 where
  pub counts : w.begun ≡ w.ended + running w.task
  pub mark : w.ended_before ≤ w.ended
  pub promise : Promise w w.caller

carry_done :
    (w v : World)
    → (v.bits.done ≡ true → (w.bits.done ≡ true) ⊎ (v.ended_before < v.ended))
    → v.ended_before ≡ w.ended_before
    → w.ended ≤ v.ended
    → (w.bits.done ≡ true → w.ended_before < w.ended)
    → v.bits.done ≡ true
    → v.ended_before < v.ended
carry_done w v d m e p on = elim (d on) [ inl before ↦ omega (arith, p before) | inr now ↦ now ]

wakes-done : (bits : Bits) → bits.done ≡ (uploader_wakes bits).0.done
unfolding uploader_wakes
wakes-done bits = ground arith

waited-done : (bits : Bits) → (flush_waited bits).1 ≡ esp_ok → bits.done ≡ true
unfolding flush_waited
waited-done bits fine = elim (Bool-cases bits.done) [
  | inl y ↦ y
  | inr n ↦ let late = rw n at fine in cc
]

waited-off : (bits : Bits) → (flush_waited bits).0.done ≡ false
unfolding flush_waited
waited-off bits = elim (Bool-cases bits.done) [ inl y ↦ rw y refl | inr n ↦ rw n refl ]

carry :
    (w v : World) (c : Caller)
    → (v.bits.done ≡ true → (w.bits.done ≡ true) ⊎ (v.ended_before < v.ended))
    → v.ended_before ≡ w.ended_before
    → w.ended ≤ v.ended
    → Promise w c
    → Promise v c
carry w v outside d m e p = tt
carry w v cleared d m e p = carry_done w v d m e p
carry w v flushing d m e p = carry_done w v d m e p
carry w v (returned code) d m e p = λ fine. omega (arith, p fine)

Step-IsCounted : {w v : World} → Step w v → IsCounted w → IsCounted v
unfolding upload_timer_callback drain_done flush_clears flush_sets
Step-IsCounted {w} {v} ticks i = record {
  counts = i.counts;
  mark = i.mark;
  promise = carry w v w.caller inl refl (omega arith) i.promise;
}
Step-IsCounted {w} {v} (wakes idle on) i = record {
  counts = omega (arith, i.counts, ap running idle);
  mark = i.mark;
  promise = carry w v w.caller (λ d. inl (wakes-done w.bits ∙ d)) refl (omega arith) i.promise;
}
Step-IsCounted {w} {v} (finishes busy) i = record {
  counts = omega (arith, i.counts, ap running busy);
  mark = omega (arith, i.mark);
  promise = carry w v w.caller (λ d. inr (omega (arith, i.mark))) refl (omega arith) i.promise;
}
Step-IsCounted {w} {v} (clears out) i = record {
  counts = i.counts;
  mark = omega arith;
  promise = λ d. cc;
}
Step-IsCounted {w} {v} (sets c) i = record {
  counts = i.counts;
  mark = i.mark;
  promise = subst (Promise w) c i.promise;
}
Step-IsCounted {w} {v} (returns f) i = record {
  counts = i.counts;
  mark = i.mark;
  promise = λ fine. subst (Promise w) f i.promise (waited-done w.bits fine);
}
Step-IsCounted {w} {v} (other_clears free) i = record {
  counts = i.counts;
  mark = i.mark;
  promise = carry w v w.caller (λ d. cc) refl (omega arith) i.promise;
}
Step-IsCounted {w} {v} (other_sets c) i = record {
  counts = i.counts;
  mark = i.mark;
  promise = carry w v w.caller inl refl (omega arith) i.promise;
}
Step-IsCounted {w} {v} (other_returns f) i = record {
  counts = i.counts;
  mark = i.mark;
  promise =
      carry w v w.caller (λ d. let off = waited-off w.bits in cc) refl (omega arith) i.promise;
}

run-IsCounted : {u w : World} → Reaches u w → IsCounted u → IsCounted w
run-IsCounted here i = i
run-IsCounted (next before step) i = Step-IsCounted step (run-IsCounted before i)

-- A world before a flush, in which some drains ended and one may run.
abbrev pub quiet : Bits → Task → ℕ → World
quiet bits task ended = record {
  bits = bits;
  task = task;
  caller = outside;
  other = outside;
  begun = ended + running task;
  ended = ended;
  begun_before = 0;
  ended_before = 0;
}

quiet-IsCounted : (bits : Bits) (task : Task) (ended : ℕ) → IsCounted (quiet bits task ended)
quiet-IsCounted bits task ended = record { counts = refl; mark = omega arith; promise = tt }

-- A flush that returns success returns after a drain that ended since the flush cleared its bit; where
-- none was running then, that drain began after the flush was called.
pub flush-drained :
    (bits : Bits) (task : Task) (ended : ℕ) {w : World}
    → Reaches (quiet bits task ended) w
    → w.caller ≡ returned esp_ok
    → (w.ended_before < w.ended) × (w.ended ≤ w.begun)
flush-drained bits task ended {w} run back =
    let i = run-IsCounted run (quiet-IsCounted bits task ended) in
    (subst (Promise w) back i.promise refl, omega (arith, i.counts))

-- A flush that nothing serves any more: it waits, the task waits too, no bit is set that would end
-- either wait, although a drain ran for the flush and the other flush returned success.
pub record IsStranded (w : World) : Type 0 where
  pub waits : w.caller ≡ flushing
  pub other_served : w.other ≡ returned esp_ok
  pub served : w.begun_before < w.ended
  pub task_waits : w.task ≡ waiting
  pub no_wake : (uploader_wakes w.bits).1 ≡ false
  pub no_end : (flush_waited w.bits).1 ≡ timeout

-- A flush that is called while a drain runs can return success when that drain ends: no drain began
-- since the call, and the request is still set.
pub flush-early :
    (bits : Bits) (ended : ℕ)
    → (v : World) × Reaches (quiet bits draining ended) v
      × (v.caller ≡ returned esp_ok)
      × (v.begun ≡ v.begun_before)
      × (v.bits.flush ≡ true)
unfolding flush_clears flush_sets drain_done flush_waited
flush-early bits ended = (
  _,
  next (next (next (next here (clears refl)) (sets refl)) (finishes refl)) (returns refl),
  refl,
  refl,
  refl,
)
