-- ===== src/IssueFetcher/Run.antt =====
-- `run`: the search is an argument, whose pages have been read; between the parts of a run no
-- other client changes the queues.
pub mod Depth
use ai_workflows.Common.{
  ℕ, ◌+◌, ◌-◌, String, Option, none, some, List, [], ◌∷◌, length, eqb, Bool, true, false,
  if◌then◌else◌,
}
use ai_workflows.Effects.{Result, ok, raised, Exn, Act, after}
use ai_workflows.Constants.{RedisQueue, queue_value}
use ai_workflows.Redis.Lists.{RedisLists}
use ai_workflows.Redis.Hash.{RedisHash}
use ai_workflows.MergeQueue.Job.{Json}
use ai_workflows.IssueFetcher.Types.{FoundIssue, Settings, Events, Services}
use ai_workflows.IssueFetcher.Existing.{Schemas}
use ai_workflows.IssueFetcher.Push.{push_issues_to_queue}
use ai_workflows.IssueFetcher.Consolidate.Pairs.{process_consolidation_labels}

module _ (r : RedisLists) where
  -- `_get_queue_depth`
  unfoldable pub get_queue_depth : r.Lists → ℕ
  get_queue_depth lists =
      length (r.lrange lists (queue_value RedisQueue.triage_queue))
      + length (r.lrange lists (queue_value RedisQueue.triage_queue_todo))

  -- `max(0, threshold - depth)`, if there is a threshold
  abbrev pub push_cap : Option ℕ → r.Lists → Option ℕ
  push_cap none lists = none
  push_cap (some threshold) lists = some (threshold - get_queue_depth lists)

  abbrev pub is_zero : Option ℕ → Bool
  is_zero none = false
  is_zero (some n) = eqb n 0

module _ (r : RedisLists) (h : RedisHash) (json : Json) (services : Services) (settings : Settings)
    (task_json : Events → String → Bool → String) (schemas : Schemas)
    (locked : r.Lists → List String) (answer : Events → Result (Unit {0})) where
  abbrev pub FetcherState : Type 0
  FetcherState = r.Lists × (h.Hash × Events)

  -- The push of the issues, unless the queues are full.
  unfoldable pub push_unless_full : List FoundIssue → Option ℕ → Act (r.Lists × Events) ℕ
  push_unless_full issues cap (lists, log) =
      if is_zero r cap
      then (ok 0, (lists, log))
      else push_issues_to_queue r services settings task_json schemas
          (λ queue. ok (r.lrange lists queue)) (locked lists) issues cap (lists, log)

  abbrev pub then_consolidate :
      List FoundIssue → h.Hash → Result ℕ × (r.Lists × Events) → Result ℕ × FetcherState
  then_consolidate issues hash (raised e, (lists, log)) = (raised e, (lists, (hash, log)))
  then_consolidate issues hash (ok pushed, (lists, log)) =
      let (n, s) =
        process_consolidation_labels h json services settings answer issues (hash, log) in
      (n, (lists, s))

  abbrev pub run_found : List FoundIssue → FetcherState → Result ℕ × FetcherState
  run_found [] s = (ok 0, s)
  run_found (issue ∷ issues) (lists, (hash, log)) = then_consolidate (issue ∷ issues) hash (
      push_unless_full (issue ∷ issues) (push_cap r settings.queue_depth_threshold lists)
        (lists, log))

  -- The result is the number of jobs that were submitted.
  unfoldable pub run : (Events → Result (List FoundIssue)) → Act FetcherState ℕ
  run search_issues (lists, (hash, log)) = after run_found (search_issues log) (lists, (hash, log))
