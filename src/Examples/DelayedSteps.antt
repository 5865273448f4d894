-- ===== src/Examples/DelayedSteps.antt =====
-- A delayed queue with a task that is due and one that is not.
use ai_workflows.Common.{String, true, some, none, [], ◌≡◌, refl, arith, contains}
use ai_workflows.DelayedQueue.{schedule_task, promote_due_tasks}
use ai_workflows.DelayedQueue.Due.{promote_due_tasks-promotes, promote_due_tasks-leaves}
use ai_workflows.Supervisor.Types.{pos, negsuc}
use ai_workflows.Examples.SortedSet.{entries, entries-Documented}
use ai_workflows.Examples.Lists.{store, store-Documented}

abbrev waiting : entries.Set
waiting = entries.zadd 100 "early" (entries.zadd 900 "late" [])

abbrev queue_for : String → String
queue_for payload = "triage"

abbrev lists : store.Lists
lists = λ key. []

schedule_task_test :
    entries.score (schedule_task entries 100 "task" (pos 20) waiting) "task" ≡ some 120
unfolding schedule_task
schedule_task_test = refl

schedule_task_at_once_test :
    entries.score (schedule_task entries 100 "task" (negsuc 5) waiting) "task" ≡ some 100
unfolding schedule_task
schedule_task_at_once_test = refl

promote_due_tasks-promotes_example :
    (entries.score (promote_due_tasks entries store queue_for 500 none (waiting, lists)).1.0 "early"
      ≡ none)
    × (contains
          (store.lrange
            (promote_due_tasks entries store queue_for 500 none (waiting, lists)).1.1
            "triage")
          "early"
        ≡ true)
promote_due_tasks-promotes_example =
    promote_due_tasks-promotes entries store entries-Documented store-Documented queue_for 500 none
      waiting lists "early" 100 refl (omega arith)

promote_due_tasks-leaves_example :
    entries.score (promote_due_tasks entries store queue_for 500 none (waiting, lists)).1.0 "late"
    ≡ some 900
promote_due_tasks-leaves_example =
    promote_due_tasks-leaves entries store entries-Documented store-Documented queue_for 500 none
      waiting lists "late" 900 refl (omega arith)
