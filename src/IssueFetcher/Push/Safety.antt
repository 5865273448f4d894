-- ===== src/IssueFetcher/Push/Safety.antt =====
-- Every task that a run of the fetcher files has a cause.
use ai_workflows.Common.{
  every_own, some_of, ℕ, String, Bool, true, false, Option, none, some, List, [], ◌∷◌, contains,
  ◌==◌, ◌&&◌, not, ◌≡◌, inl, inr, refl, Bool-cases, if◌then◌else◌,
}
use ai_workflows.Effects.{Result, ok, raised, after}
use ai_workflows.Constants.{JiraLabel, label}
use ai_workflows.Redis.Lists.{RedisLists}
use ai_workflows.IssueFetcher.Types.{
  FoundIssue, Settings, Events, edit_labels, Services, is_request_exception, request,
  edit_jira_labels, went_through, try_edit,
}
use ai_workflows.IssueFetcher.Existing.{Schemas, get_existing_issue_keys}
use ai_workflows.IssueFetcher.Mark.{
  Marks, ymir_labels, has_in_progress, mark_todo, mark_stale, mark_in_flight, mark_issue,
  mark_issues,
}
use ai_workflows.IssueFetcher.Mark.Meaning.{Triggered, Asked}
use ai_workflows.IssueFetcher.Mark.Meaning.Loop.{mark_issues-AllMarks}
use ai_workflows.IssueFetcher.Push.{no_marks, push_issues_to_queue, first_limit}
use ai_workflows.IssueFetcher.Push.Justified.{Justified}
use ai_workflows.IssueFetcher.Push.Filed.{push_marked-Justified}

module _ (services : Services) (settings : Settings) (locked existing : List String)
    (all : List FoundIssue) where
  abbrev Good : Events → Type 0
  Good = Justified services settings locked existing all

  edited-Good :
      (b : Bool) (key : String) (added removed : List String) (log : Events)
      → Good log
      → Good
          (if b
            then (true, log)
            else (went_through (edit_jira_labels services key added removed log))).1
  unfolding edit_jira_labels request
  edited-Good true key added removed log h = h
  edited-Good false key added removed log h = answered (services.respond log _) h
    where
      answered :
          (u : Result (Unit {0}))
          → Good log
          → Good (went_through (u, edit_labels key added removed ∷ log)).1
      answered (ok u) k = k
      answered (raised e) k = k

  try_edit-Good :
      (key : String) (added removed : List String) (log : Events)
      → Good log
      → Good (try_edit services settings key added removed log).1
  unfolding try_edit
  try_edit-Good key added removed log h = edited-Good settings.dry_run key added removed log h

  mark_todo-Good :
      (key : String) (added : Result Bool) (m : Marks) (log : Events)
      → Good log
      → Good (mark_todo services settings key added m log).1
  unfolding mark_todo
  mark_todo-Good key (ok true) m log h = h
  mark_todo-Good key (ok false) m log h = try_edit-Good key _ _ log h
  mark_todo-Good key (raised e) m log h = elim (Bool-cases (is_request_exception e)) [
    | inl skip ↦ rw skip h
    | inr fatal ↦ rw fatal h
  ]

  mark_in_flight-Good :
      (key : String) (labels : List String) (stale : Option String) (m : Marks) (log : Events)
      → Good log
      → Good (mark_in_flight services settings key labels stale m log).1
  unfolding mark_in_flight mark_stale
  mark_in_flight-Good key labels none m log h = h
  mark_in_flight-Good key labels (some stale) m log h =
      elim (Bool-cases (contains m.existing key)) [
        | inl queued ↦ rw queued h
        | inr free ↦ rw free (try_edit-Good key _ _ log h)
      ]

  mark_issue-Good :
      (issue : FoundIssue) (m : Marks) (log : Events)
      → Good log
      → Good (mark_issue services settings issue m log).1
  unfolding mark_issue
  mark_issue-Good issue m log h = elim (Bool-cases (issue.key == "")) [
    | inl nameless ↦ rw nameless h
    | inr named ↦
        elim (Bool-cases (
          contains (ymir_labels issue.labels) (label JiraLabel.todo)
          && not (has_in_progress (ymir_labels issue.labels)))) [
            | inl todo ↦ rw (named, todo) (mark_todo-Good issue.key _ m log h)
            | inr other ↦ rw (named, other) (mark_in_flight-Good issue.key _ _ m log h)
          ]
  ]

  then-Good :
      (issues : List FoundIssue) (r : Result Marks) (log : Events)
      → Good log
      → ((m : Marks) (log : Events)
          → Good log
          → Good (mark_issues services settings issues m log).1)
      → Good (after (mark_issues services settings issues) r log).1
  then-Good issues (ok m) log h k = k m log h
  then-Good issues (raised e) log h k = h

  mark_issues-Good :
      (issues : List FoundIssue) (m : Marks) (log : Events)
      → Good log
      → Good (mark_issues services settings issues m log).1
  unfolding mark_issues
  mark_issues-Good [] m log h = h
  mark_issues-Good (issue ∷ issues) m log h =
      then-Good issues (mark_issue services settings issue m log).0
        (mark_issue services settings issue m log).1 (mark_issue-Good issue m log h)
        (λ n log' k. mark_issues-Good issues n log' k)

-- Every task that the fetcher files is of an issue without a lock, and goes to the queue of its
-- kind. Either the issue carries `ymir_todo`, no work on it is in progress, a Red Hat employee
-- added the label, and the label was exchanged for `ymir_triage_in_progress` just before (except
-- in a dry run); or another run was asked for, and `ymir_retry_needed` was exchanged in the same
-- way, except in a dry run; or the key is in no queue and no issue of that key has a label of
-- Ymir. Another run is asked for by an issue of the key that carries `ymir_retry_needed` with no
-- work in progress, or a label of work in progress that no other label keeps, while the issue has
-- not changed for longer than the threshold.
pub push_issues_to_queue-Justified :
    (r : RedisLists) (services : Services) (settings : Settings)
    → (task_json : Events → String → Bool → String) (schemas : Schemas)
    → (lrange : String → Result (List String)) (locked : List String) (issues : List FoundIssue)
    → (max_issues_override : Option ℕ) (lists : r.Lists)
    → Justified services settings locked
        (get_existing_issue_keys schemas lrange)
        issues
        (push_issues_to_queue r services settings task_json schemas lrange locked issues
          max_issues_override
          (lists, [])).1.1
unfolding push_issues_to_queue
push_issues_to_queue-Justified r services settings task_json schemas lrange locked []
      max_issues_override lists =
    tt
push_issues_to_queue-Justified r services settings task_json schemas lrange locked (issue ∷ issues)
      max_issues_override lists =
    push_marked-Justified services settings locked (get_existing_issue_keys schemas lrange)
      (issue ∷ issues) r task_json (first_limit max_issues_override settings.max_issues) lists
      (mark_issues services settings (issue ∷ issues)
        (no_marks r services settings task_json (get_existing_issue_keys schemas lrange)) []).0
      (mark_issues services settings (issue ∷ issues)
        (no_marks r services settings task_json (get_existing_issue_keys schemas lrange)) []).1
      (mark_issues-AllMarks services settings _ _ (issue ∷ issues) _ []
        (every_own (Triggered services settings) _ (issue ∷ issues) (issue ∷ issues) (λ x h. h)
          (λ x there why.
            some_of (λ y. (y.key ≡ x.key) × Triggered services settings y) x (issue ∷ issues) there
              (refl, why)))
        (every_own (Asked services settings) _ (issue ∷ issues) (issue ∷ issues) (λ x h. h)
          (λ x there why.
            some_of (λ y. (y.key ≡ x.key) × Asked services settings y) x (issue ∷ issues) there
              (refl, why))))
      (mark_issues-Good services settings locked (get_existing_issue_keys schemas lrange)
        (issue ∷ issues) (issue ∷ issues) _ [] tt)
