-- ===== src/Supervisor/WorkQueue/Queue.antt =====
-- `WorkQueue`: its state is the sorted set. Every operation is given the moment at which it runs.
pub mod InQueue
pub mod Wait
use ai_workflows.Common.{
  ℕ, ◌+◌, String, Bool, Option, none, some, List, [], ◌∷◌, map, leb, if◌then◌else◌,
}
use ai_workflows.Effects.{Result, ok, raised}
use ai_workflows.Supervisor.Types.{seconds}
use ai_workflows.Supervisor.WorkQueue.Item.{WorkItem, work_item_str, from_str}
use ai_workflows.Redis.SortedSet.{SortedSet}

abbrev pub work_item_retry_delay : ℕ
work_item_retry_delay = seconds 900

abbrev pub one_result : Result WorkItem → Result (Option WorkItem)
one_result (ok item) = ok (some item)
one_result (raised e) = raised e

abbrev pub together : Result WorkItem → Result (List WorkItem) → Result (List WorkItem)
together (ok i) (ok is) = ok (i ∷ is)
together (ok i) (raised e) = raised e
together (raised e) r = raised e

abbrev pub read_all : List String → Result (List WorkItem)
read_all [] = ok []
read_all (m ∷ ms) = together (from_str m) (read_all ms)

module _ (z : SortedSet) where
  open z use {Set, zadd, zrem, del, first, members}

  -- FIRST_READY_SCRIPT: the first member, if its score is due, gets the new score.
  unfoldable pub take_if_due : ℕ → ℕ → Option (String × ℕ) → Set → Option (String × ℕ) × Set
  take_if_due max_score new_score none q = (none, q)
  take_if_due max_score new_score (some (member, score)) q =
      if leb score max_score then (some (member, score), zadd new_score member q) else (none, q)

  unfoldable pub first_ready_script : ℕ → ℕ → Set → Option (String × ℕ) × Set
  first_ready_script max_score new_score q = take_if_due max_score new_score (first q) q

  abbrev pub decode : Option (String × ℕ) → Result (Option WorkItem)
  decode none = ok none
  decode (some (member, score)) = one_result (from_str member)

  unfoldable pub pop_first_ready_work_item : ℕ → Set → Result (Option WorkItem) × Set
  pop_first_ready_work_item current_time q =
      let (result, q') = first_ready_script current_time (current_time + work_item_retry_delay) q in
      (decode result, q')

  -- ZADD and ZREM of several members
  abbrev pub zadd_all : ℕ → List String → Set → Set
  zadd_all score [] q = q
  zadd_all score (m ∷ ms) q = zadd_all score ms (zadd score m q)

  abbrev pub zrem_all : List String → Set → Set
  zrem_all [] q = q
  zrem_all (m ∷ ms) q = zrem_all ms (zrem m q)

  -- the delay is in seconds
  unfoldable pub schedule_work_items : ℕ → List WorkItem → ℕ → Set → Set
  schedule_work_items current_time work_items delay q =
      zadd_all (current_time + seconds delay) (map work_item_str work_items) q

  unfoldable pub remove_work_items : List WorkItem → Set → Set
  remove_work_items work_items q = zrem_all (map work_item_str work_items) q

  unfoldable pub remove_all_work_items : Set → Set
  remove_all_work_items q = del q

  unfoldable pub get_all_work_items : Set → Result (List WorkItem)
  get_all_work_items q = read_all (members q)

  -- The loop goes round while nothing is ready.
  unfoldable pub again :
      (Set → Result (Option WorkItem) × Set)
      → Result (Option WorkItem) × Set
      → Result (Option WorkItem) × Set
  again rest (ok none, q) = rest q
  again rest (ok (some item), q) = (ok (some item), q)
  again rest (raised e, q) = (raised e, q)

  -- `wait_first_ready_work_item`, for so many turns of its loop: `clock n` is the moment of the
  -- n-th turn. Here nobody else changes the queue meanwhile.
  unfoldable pub wait_first_ready_work_item : ℕ → (ℕ → ℕ) → ℕ → Set → Result (Option WorkItem) × Set
  wait_first_ready_work_item ℕ.zero clock n q = (ok none, q)
  wait_first_ready_work_item (ℕ.suc fuel) clock n q =
      let rest = wait_first_ready_work_item fuel clock (ℕ.suc n) in
      again rest (pop_first_ready_work_item (clock n) q)
