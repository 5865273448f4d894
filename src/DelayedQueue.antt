-- ===== src/DelayedQueue.antt =====
-- ymir/common/delayed_queue.py: tasks that wait in a sorted set until they are due. The state is
-- the sorted set beside the lists; the clock is an argument, and errors of the connection are left
-- out. A promotion and its removal are one transaction.
pub mod Due
use ai_workflows.Common.{
  ℕ, ◌+◌, suc, String, Bool, false, Option, none, some, List, [], ◌∷◌, leb, if◌then◌else◌,
}
use ai_workflows.Supervisor.Types.{ℤ, pos, negsuc}
use ai_workflows.Redis.SortedSet.{SortedSet}
use ai_workflows.Redis.Lists.{RedisLists}

-- `max(0.0, delay_seconds)`
abbrev pub delay_or_zero : ℤ → ℕ
delay_or_zero (pos n) = n
delay_or_zero (negsuc n) = 0

abbrev pub due_at : ℕ → Option ℕ → Bool
due_at cutoff none = false
due_at cutoff (some ready_at) = leb ready_at cutoff

-- The time that a promotion goes by: the one given, else the clock's.
abbrev pub cutoff_of : ℕ → Option ℕ → ℕ
cutoff_of clock none = clock
cutoff_of clock (some now) = now

module _ (z : SortedSet) where
  unfoldable pub schedule_task : ℕ → String → ℤ → z.Set → z.Set
  schedule_task clock payload delay q = z.zadd (clock + delay_or_zero delay) payload q

  -- ZRANGEBYSCORE key -inf cutoff: the members whose score is at most the cutoff, in their order.
  unfoldable pub due_members : ℕ → z.Set → List String → List String
  due_members cutoff q [] = []
  due_members cutoff q (m ∷ ms) =
      let rest = due_members cutoff q ms in if due_at cutoff (z.score q m) then m ∷ rest else rest

  module _ (r : RedisLists) (target_queue_for_payload : String → String) where
    unfoldable pub promote_all : List String → z.Set × r.Lists → ℕ × (z.Set × r.Lists)
    promote_all [] s = (0, s)
    promote_all (member ∷ due) (q, l) =
        let (promoted, s) =
          promote_all due (z.zrem member q, r.lpush (target_queue_for_payload member) member l) in
        (suc promoted, s)

    unfoldable pub promote_due_tasks : ℕ → Option ℕ → z.Set × r.Lists → ℕ × (z.Set × r.Lists)
    promote_due_tasks clock now (q, l) =
        promote_all (due_members (cutoff_of clock now) q (z.members q)) (q, l)
