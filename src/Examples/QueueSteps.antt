-- ===== src/Examples/QueueSteps.antt =====
-- The work queue and the loops around it.
use ai_workflows.Common.{true, false, some, none, is_some, [], ◌∷◌, ◌≡◌, ◌≢◌, ◌⊎◌, refl, arith, ◌+◌}
use ai_workflows.Effects.{Result, ok, raised, exn, other, ◌>>=◌}
use ai_workflows.Supervisor.Types.{seconds, IssueStatus}
use ai_workflows.Supervisor.Requests.{Log}
use ai_workflows.Supervisor.WorkQueue.Item.{
  WorkItem, WorkItemType, work_item_str, work_item_type, from_str,
}
use ai_workflows.Supervisor.WorkQueue.Item.RoundTrip.{
  from_str-work_item_str, work_item_str-from_str,
}
use ai_workflows.Supervisor.WorkQueue.Queue.{
  get_all_work_items, wait_first_ready_work_item, work_item_retry_delay,
}
use ai_workflows.Supervisor.WorkQueue.Queue.Wait.{wait_first_ready_work_item-ends}
use ai_workflows.Supervisor.Main.{State, process_once, step_of}
use ai_workflows.Supervisor.Main.Keeps.{Dropped, process_once-no_loss, process_once-retry}
use ai_workflows.Supervisor.Collect.{
  collect_and_schedule_work_items, collect_work_items, find_work_items, get_errata, errata_items,
  is_relevant, in_right_state, with_found, schedule_new,
}
use ai_workflows.Supervisor.ErratumHandler.Lists.{
  erratum_get_issues, issues_of, cached_or_read, all_issues_are_release_pending,
}
use ai_workflows.Supervisor.Collect.Queued.{collect-queues_found}
use ai_workflows.Examples.SortedSet.{Entries, entries, entries-Documented}
use ai_workflows.Examples.Services.{services, issue_in}

abbrev item : WorkItem
item = record { item_type = WorkItemType.process_issue; item_data = "RHEL-1" }

abbrev queue : Entries
queue = ("process_issue:RHEL-1", seconds 900) ∷ ("process_erratum:7", seconds 2000) ∷ []

abbrev app_state : State
app_state = record { dry_run = false; ignore_needs_attention = false }

abbrev ticket : Log → Result (Unit {0})
ticket log = ok tt

abbrev no_ticket : Log → Result (Unit {0})
no_ticket log = raised (exn other "kinit failed")

from_str-work_item_str_example : from_str (work_item_str item) ≡ ok item
from_str-work_item_str_example = from_str-work_item_str item

work_item_str-from_str_example : work_item_str item ≡ "process_issue:RHEL-1"
unfolding from_str work_item_type
work_item_str-from_str_example = work_item_str-from_str "process_issue:RHEL-1" item refl

process_once-no_loss_example :
    (is_some (
        entries.score
          (process_once entries services ticket app_state (queue, [])).1.0
          "process_erratum:7")
      ≡ true)
    ⊎ Dropped entries services ticket app_state queue [] "process_erratum:7"
process_once-no_loss_example =
    process_once-no_loss entries entries-Documented services ticket app_state queue []
      "process_erratum:7" refl

process_once-retry_example :
    let done = process_once entries services no_ticket app_state (queue, []) in
    (done.0 ≡ raised (exn other "kinit failed"))
    × (entries.score done.1.0 (work_item_str item) ≡ some (seconds 1000 + work_item_retry_delay))
unfolding step_of work_item_str ◌>>=◌
process_once-retry_example =
    process_once-retry entries entries-Documented services no_ticket app_state queue [] [] item
      (seconds 900) (exn other "kinit failed") refl (omega arith) refl

wait_first_ready_work_item-ends_example :
    (wait_first_ready_work_item entries 3 seconds 0 (("process_issue:RHEL-1", 1500000) ∷ [])).0
    ≢ ok none
wait_first_ready_work_item-ends_example =
    wait_first_ready_work_item-ends entries entries-Documented 2 seconds 1500000
      "process_issue:RHEL-1" (("process_issue:RHEL-1", 1500000) ∷ []) refl (omega arith)

collect-queues_found_example :
    is_some (
      entries.score
        (collect_and_schedule_work_items entries services ticket
          (λ log. ok (issue_in IssueStatus.integration ∷ []))
          (queue, [])).1.0
        "process_issue:RHEL-1")
    ≡ true
unfolding collect_and_schedule_work_items collect_work_items ◌>>=◌ find_work_items get_errata
    errata_items is_relevant in_right_state erratum_get_issues issues_of cached_or_read
    all_issues_are_release_pending with_found schedule_new get_all_work_items from_str
    work_item_type work_item_str
collect-queues_found_example =
    collect-queues_found entries entries-Documented services ticket
      (λ log. ok (issue_in IssueStatus.integration ∷ [])) queue [] (item ∷ [])
      "process_issue:RHEL-1" refl refl refl
