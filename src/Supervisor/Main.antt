-- ===== src/Supervisor/Main.antt =====
-- ymir/supervisor/main.py: one turn of the processing loop. The state is the work queue beside the
-- log of requests.
pub mod Keeps
use ai_workflows.Common.{ℕ, ◌+◌, String, Bool, Option, none, some, List, [], ◌∷◌}
use ai_workflows.Effects.{Result, ok, raised, Act, pure, ask, ◌>>=◌, ◌>>◌}
use ai_workflows.Supervisor.Types.{ℤ, pos, negsuc, WorkflowResult, seconds}
use ai_workflows.Supervisor.Requests.{Log, Call}
use ai_workflows.Supervisor.Services.{Services}
use ai_workflows.Supervisor.IssueHandler.Run as Issues
use ai_workflows.Supervisor.ErratumHandler.Run as Errata
use ai_workflows.Supervisor.WorkQueue.Item.{WorkItemType, WorkItem}
use ai_workflows.Redis.SortedSet.{SortedSet}
use ai_workflows.Supervisor.WorkQueue.Queue.{
  pop_first_ready_work_item, schedule_work_items, remove_work_items,
}

-- `State` of the command line.
pub record State : Type 0 where
  pub dry_run : Bool
  pub ignore_needs_attention : Bool

abbrev pub process_work_item :
    (services : Services) (app_state : State) → WorkItemType → String → Call WorkflowResult
process_work_item services app_state WorkItemType.process_issue key = do
  issue ← ask (λ log. services.jira_issue log key)
  Issues.run services app_state.dry_run app_state.ignore_needs_attention issue
process_work_item services app_state WorkItemType.process_erratum id = do
  erratum ← ask (λ log. services.erratum log id)
  Errata.run services app_state.dry_run app_state.ignore_needs_attention erratum

abbrev some_result : Result WorkflowResult → Result (Option WorkflowResult)
some_result (ok r) = ok (some r)
some_result (raised e) = raised e

module _ (z : SortedSet) (services : Services) (init_kerberos_ticket : Log → Result (Unit {0}))
    (app_state : State) where
  -- `if result.reschedule_in >= 0`
  unfoldable pub settle : ℕ → WorkItem → ℤ → z.Set → z.Set
  settle current_time work_item (pos delay) q =
      schedule_work_items z current_time (work_item ∷ []) delay q
  settle current_time work_item (negsuc n) q = remove_work_items z (work_item ∷ []) q

  unfoldable pub step_of : WorkItem → Call WorkflowResult
  step_of work_item =
      ask init_kerberos_ticket
      >> process_work_item services app_state work_item.item_type work_item.item_data

  -- What a handler's outcome does to the queue: an exception leaves it alone.
  unfoldable pub conclude :
      WorkItem → z.Set → Result WorkflowResult × Log → Result WorkflowResult × (z.Set × Log)
  conclude work_item q (ok result, log) =
      (ok result, (settle (services.now log) work_item result.reschedule_in q, log))
  conclude work_item q (raised e, log) = (raised e, (q, log))

  unfoldable pub process_popped :
      Result (Option WorkItem) × z.Set → Log → Result (Option WorkflowResult) × (z.Set × Log)
  process_popped (raised e, q) log = (raised e, (q, log))
  process_popped (ok none, q) log = (ok none, (q, log))
  process_popped (ok (some work_item), q) log =
      let (outcome, state) = conclude work_item q (step_of work_item log) in
      (some_result outcome, state)

  -- One turn: a poll of the queue, and the work on the item that it gave; `ok none` where no item
  -- is ready, in which case the program sleeps and polls again.
  unfoldable pub process_once : z.Set × Log → Result (Option WorkflowResult) × (z.Set × Log)
  process_once (q, log) = process_popped (pop_first_ready_work_item z (services.now log) q) log
