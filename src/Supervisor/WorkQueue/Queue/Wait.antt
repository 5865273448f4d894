-- ===== src/Supervisor/WorkQueue/Queue/Wait.antt =====
-- Waiting for an item comes to an end.
use ai_workflows.Common.{
  ℕ, zero, suc, ◌+◌, ◌≤◌, ◌<◌, String, true, false, Option, none, some, ◌≡◌, ◌≢◌, ◌⊎◌, inl, inr,
  refl, subst, arith, leb, leb-true, Bool-cases,
}
use ai_workflows.Effects.{Result, ok, raised}
use ai_workflows.Supervisor.WorkQueue.Item.{WorkItem, from_str}
use ai_workflows.Redis.SortedSet.{SortedSet, Documented}
use ai_workflows.Supervisor.WorkQueue.Queue

-- Something was handed over: an item, or the exception of an entry that is no work item.
abbrev Answered : Result (Option WorkItem) → Type 0
Answered (ok none) = true ≡ false
Answered (ok (some item)) = Unit
Answered (raised e) = Unit

not-Answered : (r : Result (Option WorkItem)) → r ≡ ok none → Answered r → ⊥
not-Answered r e h = let nothing = subst Answered e h in cc

module _ (z : SortedSet) (documented : Documented z) where
  one_result-Answered : (r : Result WorkItem) → Answered (Queue.one_result r)
  one_result-Answered (ok item) = tt
  one_result-Answered (raised e) = tt

  -- An empty-handed poll leaves the queue as it is.
  take_if_due-idle :
      (t s : ℕ) (f : Option (String × ℕ)) (q : z.Set)
      → Answered (Queue.decode z (Queue.take_if_due z t s f q).0)
        ⊎ ((Queue.decode z (Queue.take_if_due z t s f q).0 ≡ ok none)
            × ((Queue.take_if_due z t s f q).1 ≡ q))
  unfolding Queue.take_if_due
  take_if_due-idle t s none q = inr (refl, refl)
  take_if_due-idle t s (some (m, u)) q = elim (Bool-cases (leb u t)) [
    | inl due ↦ inl (rw due (one_result-Answered (from_str m)))
    | inr early ↦ inr (rw early (refl, refl))
  ]

  take_if_due-ready :
      (t s u : ℕ) (m : String) (q : z.Set)
      → u ≤ t
      → Answered (Queue.decode z (Queue.take_if_due z t s (some (m, u)) q).0)
  unfolding Queue.take_if_due
  take_if_due-ready t s u m q due = rw (leb-true u t due) (one_result-Answered (from_str m))

  pop-ready :
      (t s : ℕ) (n : String) (q : z.Set) (f : Option (String × ℕ))
      → z.first q ≡ f
      → z.score q n ≡ some s
      → s ≤ t
      → Answered (Queue.pop_first_ready_work_item z t q).0
  unfolding Queue.pop_first_ready_work_item Queue.first_ready_script
  pop-ready t s n q none e queued due = let empty = documented.first_empty q n e in cc
  pop-ready t s n q (some (m, u)) e queued due =
      let least = documented.first_least q m n u s e queued in
      rw e (take_if_due-ready t _ u m q (omega arith))

  again-Answered :
      (rest : z.Set → Result (Option WorkItem) × z.Set) (r : Result (Option WorkItem)) (q : z.Set)
      → Answered r
      → Answered (Queue.again z rest (r, q)).0
  unfolding Queue.again
  again-Answered rest (ok none) q h = cc
  again-Answered rest (ok (some item)) q h = tt
  again-Answered rest (raised e) q h = tt

  again-idle :
      (rest : z.Set → Result (Option WorkItem) × z.Set) (p : Result (Option WorkItem) × z.Set)
      (q : z.Set)
      → Answered p.0 ⊎ ((p.0 ≡ ok none) × (p.1 ≡ q))
      → Answered (rest q).0
      → Answered (Queue.again z rest p).0
  unfolding Queue.again
  again-idle rest p q (inl h) later = again-Answered rest p.0 p.1 h
  again-idle rest p q (inr h) later = rw (h.0, h.1) later

  pop-idle :
      (t : ℕ) (q : z.Set)
      → Answered (Queue.pop_first_ready_work_item z t q).0
        ⊎ (((Queue.pop_first_ready_work_item z t q).0 ≡ ok none)
            × ((Queue.pop_first_ready_work_item z t q).1 ≡ q))
  unfolding Queue.pop_first_ready_work_item Queue.first_ready_script
  pop-idle t q = take_if_due-idle t _ (z.first q) q

  wait-Answered :
      (fuel k : ℕ) (clock : ℕ → ℕ) (n s : ℕ) (m : String) (q : z.Set)
      → k < fuel
      → z.score q m ≡ some s
      → s ≤ clock (k + n)
      → Answered (Queue.wait_first_ready_work_item z fuel clock n q).0
  unfolding Queue.wait_first_ready_work_item
  wait-Answered zero k clock n s m q enough queued due = absurd (omega arith)
  wait-Answered (suc fuel) zero clock n s m q enough queued due = again-Answered _ _ _ (
      pop-ready (clock n) s m q (z.first q) refl queued
        (subst (λ x. s ≤ clock x) (omega arith) due))
  wait-Answered (suc fuel) (suc k) clock n s m q enough queued due =
      again-idle _ (Queue.pop_first_ready_work_item z (clock n) q) q (pop-idle (clock n) q) (
        wait-Answered fuel k clock (suc n) s m q (omega arith) queued
          (subst (λ x. s ≤ clock x) (omega arith) due))

  -- Waiting ends: when an item of the queue is due at some turn of the loop, then so many turns
  -- and one more are enough for the loop to give out an item, or to raise because an entry of the
  -- queue is no work item; the first moments need not be in any order.
  pub wait_first_ready_work_item-ends :
      (k : ℕ) (clock : ℕ → ℕ) (s : ℕ) (m : String) (q : z.Set)
      → z.score q m ≡ some s
      → s ≤ clock k
      → (Queue.wait_first_ready_work_item z (suc k) clock 0 q).0 ≢ ok none
  wait_first_ready_work_item-ends k clock s m q queued due e =
      let ends =
        wait-Answered (suc k) k clock 0 s m q (omega arith) queued
          (subst (λ x. s ≤ clock x) (omega arith) due) in
      not-Answered _ e ends
