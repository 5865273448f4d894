-- ===== src/Supervisor/Main/Keeps.antt =====
-- What one turn of the processing loop does to the queue.
use ai_workflows.Common.{
  ℕ, ◌+◌, ◌≤◌, String, true, Option, none, some, is_some, ◌≡◌, ◌⊎◌, inl, inr, refl, leb, leb-true,
  le_of_leb, sym, ap, ◌∙◌, String-cases, Bool-cases,
}
use ai_workflows.Effects.{Exn, Result, ok, raised}
use ai_workflows.Supervisor.Types.{ℤ, pos, negsuc, WorkflowResult}
use ai_workflows.Supervisor.Requests.{Log}
use ai_workflows.Supervisor.Services.{Services}
use ai_workflows.Supervisor.WorkQueue.Item.{WorkItem, work_item_str, from_str}
use ai_workflows.Supervisor.WorkQueue.Item.RoundTrip.{
  from_str-work_item_str, work_item_str-from_str,
}
use ai_workflows.Redis.SortedSet.{SortedSet, Documented}
use ai_workflows.Supervisor.WorkQueue.Queue
use ai_workflows.Supervisor.WorkQueue.Queue.{work_item_retry_delay}
use ai_workflows.Supervisor.WorkQueue.Queue.InQueue.{InQueue, InQueue-zadd}
use ai_workflows.Supervisor.Main
use ai_workflows.Supervisor.Main.{State}

module _ (z : SortedSet) (services : Services) (kerberos : Log → Result (Unit {0}))
    (app_state : State) where
  -- The turn took the entry `n`, which was first in the queue and due, and the handler of its item
  -- asked that it is dropped.
  pub record Dropped (q : z.Set) (log : Log) (n : String) : Type 0 where
    pub score : ℕ
    pub at_head : z.first q ≡ some (n, score)
    pub due : score ≤ services.now log
    pub item : WorkItem
    pub its_text : n ≡ work_item_str item
    pub result : WorkflowResult
    pub returned : (Main.step_of z services kerberos app_state item log).0 ≡ ok result
    pub k : ℕ
    pub negative : result.reschedule_in ≡ negsuc k

module _ (z : SortedSet) (documented : Documented z) where
  InQueue-take_if_due :
      (max_score new_score : ℕ) (f : Option (String × ℕ)) (n : String) (q : z.Set)
      → InQueue z n q
      → InQueue z n (Queue.take_if_due z max_score new_score f q).1
  unfolding Queue.take_if_due
  InQueue-take_if_due max_score new_score none n q h = h
  InQueue-take_if_due max_score new_score (some (m, s)) n q h =
      elim (Bool-cases (leb s max_score)) [
        | inl due ↦ rw due (InQueue-zadd z documented new_score m n q h)
        | inr early ↦ rw early h
      ]

  -- Taking an item leaves every item in the queue.
  InQueue-pop :
      (t : ℕ) (n : String) (q : z.Set)
      → InQueue z n q
      → InQueue z n (Queue.pop_first_ready_work_item z t q).1
  unfolding Queue.pop_first_ready_work_item Queue.first_ready_script
  InQueue-pop t n q h = InQueue-take_if_due t (t + work_item_retry_delay) (z.first q) n q h

  one_result-ok :
      (r : Result WorkItem) (item : WorkItem) → Queue.one_result r ≡ ok (some item) → r ≡ ok item
  one_result-ok (ok i) item h = cc
  one_result-ok (raised e) item h = cc

  taken-at_head :
      (max_score new_score : ℕ) (f : Option (String × ℕ)) (item : WorkItem) (q : z.Set)
      → Queue.decode z (Queue.take_if_due z max_score new_score f q).0 ≡ ok (some item)
      → (s : ℕ) × (f ≡ some (work_item_str item, s)) × (s ≤ max_score)
  unfolding Queue.take_if_due
  taken-at_head max_score new_score none item q = λ h. cc
  taken-at_head max_score new_score (some (m, s)) item q = elim (Bool-cases (leb s max_score)) [
    | inl due ↦ rw due (λ h. (
      s,
      ap (λ x. some (x, s))
          (sym (work_item_str-from_str m item (one_result-ok (from_str m) item h))),
      le_of_leb s max_score due,
    ))
    | inr early ↦ rw early (λ h. cc)
  ]

  -- The item that is taken was first in the queue, and due.
  popped-at_head :
      (t : ℕ) (item : WorkItem) (q : z.Set)
      → (Queue.pop_first_ready_work_item z t q).0 ≡ ok (some item)
      → (s : ℕ) × (z.first q ≡ some (work_item_str item, s)) × (s ≤ t)
  unfolding Queue.pop_first_ready_work_item Queue.first_ready_script
  popped-at_head t item q h = taken-at_head t (t + work_item_retry_delay) (z.first q) item q h

  module _ (services : Services) (kerberos : Log → Result (Unit {0})) (app_state : State) where
    InQueue-settle :
        (t : ℕ) (item : WorkItem) (d : ℤ) (n : String) (q : z.Set)
        → InQueue z n q
        → InQueue z n (Main.settle z services kerberos app_state t item d q)
          ⊎ ((n ≡ work_item_str item) × ((k : ℕ) × (d ≡ negsuc k)))
    unfolding Main.settle Queue.schedule_work_items Queue.remove_work_items
    InQueue-settle t item (pos d) n q h = inl (InQueue-zadd z documented _ _ n q h)
    InQueue-settle t item (negsuc k) n q h = elim (String-cases n (work_item_str item)) [
      | inl same ↦ inr (same, (k, refl))
      | inr other ↦ inl (rw (documented.score-zrem_other (work_item_str item) n q other) h)
    ]

    -- What a handler that asks for a drop leaves of the entry `n`.
    abbrev Asked : WorkItem → String → Result WorkflowResult → Type 0
    Asked item n outcome =
        (n ≡ work_item_str item)
        × ((result : WorkflowResult) × (outcome ≡ ok result)
            × ((k : ℕ) × (result.reschedule_in ≡ negsuc k)))

    InQueue-conclude :
        (item : WorkItem) (n : String) (q : z.Set) (out : Result WorkflowResult × Log)
        → InQueue z n q
        → InQueue z n (Main.conclude z services kerberos app_state item q out).1.0
          ⊎ Asked item n out.0
    unfolding Main.conclude
    InQueue-conclude item n q (raised e, log) h = inl h
    InQueue-conclude item n q (ok r, log) h =
        elim (InQueue-settle (services.now log) item r.reschedule_in n q h) [
          | inl kept ↦ inl kept
          | inr (same, asked) ↦ inr (same, (r, refl, asked))
        ]

    InQueue-process_popped :
        (n : String) (popped : Result (Option WorkItem) × z.Set) (log : Log)
        → InQueue z n popped.1
        → InQueue z n (Main.process_popped z services kerberos app_state popped log).1.0
          ⊎ ((item : WorkItem) × (popped.0 ≡ ok (some item))
              × Asked item n (Main.step_of z services kerberos app_state item log).0)
    unfolding Main.process_popped
    InQueue-process_popped n (raised e, q) log h = inl h
    InQueue-process_popped n (ok none, q) log h = inl h
    InQueue-process_popped n (ok (some item), q) log h =
        elim (InQueue-conclude item n q (Main.step_of z services kerberos app_state item log) h) [
          | inl kept ↦ inl kept
          | inr asked ↦ inr (item, refl, asked)
        ]

    -- Whatever the handlers do, an item of the queue is still in the queue after a turn of the
    -- processing loop, unless it was the first of the queue and due, and the handler that the turn
    -- ran on it returned a negative delay. In particular an exception loses no item.
    pub process_once-no_loss :
        (q : z.Set) (log : Log) (n : String)
        → is_some (z.score q n) ≡ true
        → (is_some (z.score (Main.process_once z services kerberos app_state (q, log)).1.0 n)
            ≡ true)
          ⊎ Dropped z services kerberos app_state q log n
    unfolding Main.process_once
    process_once-no_loss q log n h =
        elim (InQueue-process_popped n (Queue.pop_first_ready_work_item z (services.now log) q) log
          (InQueue-pop (services.now log) n q h)) [
            | inl kept ↦ inl kept
            | inr (item, popped, (same, (result, returned, (k, negative)))) ↦
                let (score, at_head, due) = popped-at_head (services.now log) item q popped in
                inr (record {
                  score = score;
                  at_head = at_head ∙ ap (λ s. some (s, score)) (sym same);
                  due = due;
                  item = item;
                  its_text = same;
                  result = result;
                  returned = returned;
                  k = k;
                  negative = negative;
                })
          ]

    -- When the handler of an item raises, the turn leaves the item due again fifteen minutes after
    -- it was taken, whatever requests the handler made before.
    pub process_once-retry :
        (q : z.Set) (log log' : Log) (item : WorkItem) (s : ℕ) (e : Exn)
        → z.first q ≡ some (work_item_str item, s)
        → s ≤ services.now log
        → Main.step_of z services kerberos app_state item log ≡ (raised e, log')
        → let done = Main.process_once z services kerberos app_state (q, log) in
          (done.0 ≡ raised e)
          × (z.score done.1.0 (work_item_str item)
              ≡ some (services.now log + work_item_retry_delay))
    unfolding Main.process_once Main.process_popped Main.conclude Queue.pop_first_ready_work_item
        Queue.first_ready_script Queue.take_if_due
    process_once-retry q log log' item s e at_head due raises =
        rw (at_head, leb-true s (services.now log) due, from_str-work_item_str item, raises)
          (refl, documented.score-zadd _ _ _)
