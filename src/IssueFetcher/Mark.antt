-- ===== src/IssueFetcher/Mark.antt =====
-- The first loop of `push_issues_to_queue`: which issues are to be left alone, and which ones run
-- again because of a label.
pub mod Meaning
use ai_workflows.Common.{
  ℕ, ◌-◌, String, Bool, true, false, ◌&&◌, ◌||◌, not, Option, none, some, List, [], ◌∷◌, any,
  contains, ltb, ◌==◌, if◌then◌else◌, starts_with, has_suffix,
}
use ai_workflows.Effects.{Result, ok, raised, Act, pure, lift, after}
use ai_workflows.Constants.{JiraLabel, label}
use ai_workflows.IssueFetcher.Types.{
  FoundIssue, Settings, Events, Do, Services, is_request_exception, try_edit,
}
use ai_workflows.IssueFetcher.Author.{label_added_by_rh_employee}

-- `existing_keys`, `remove_issues_for_retry`, `user_triggered_keys`, `retry_needed_keys`
pub record Marks : Type 0 where
  pub existing : List String
  pub retry : List String
  pub user_triggered : List String
  pub retry_needed : List String

abbrev pub mark_existing : String → Marks → Marks
mark_existing key m = record m { existing = key ∷ m.existing }

abbrev pub mark_user : String → Marks → Marks
mark_user key m = record m { retry = key ∷ m.retry; user_triggered = key ∷ m.user_triggered }

abbrev pub mark_retry : String → Marks → Marks
mark_retry key m = record m { retry = key ∷ m.retry; retry_needed = key ∷ m.retry_needed }

abbrev pub ymir_labels : List String → List String
ymir_labels [] = []
ymir_labels (l ∷ ls) = let rest = ymir_labels ls in if starts_with l "ymir_" then l ∷ rest else rest

abbrev pub has_in_progress : List String → Bool
has_in_progress labels = any (λ l. has_suffix l "_in_progress") labels

abbrev pub in_flight_labels : List JiraLabel
in_flight_labels =
    JiraLabel.triage_in_progress ∷ JiraLabel.triaged_backport ∷ JiraLabel.triaged_rebase
    ∷ JiraLabel.triaged_rebuild ∷ JiraLabel.cli_triage ∷ JiraLabel.reproducer_in_progress ∷ []

abbrev pub is_ignorable : String → Bool
is_ignorable l =
    l == label JiraLabel.retry_needed
    || l == label JiraLabel.todo
    || l == label JiraLabel.applicability_confidence_low
    || l == label JiraLabel.applicability_confidence_medium
    || l == label JiraLabel.applicability_confidence_high

-- Whether another label says that the work of the in-flight label is done.
abbrev pub is_blocking : String → String → Bool
is_blocking in_flight other =
    not (other == in_flight)
    && (if in_flight == label JiraLabel.reproducer_in_progress
        then starts_with other "ymir_reproducer_"
        else not (is_ignorable other))

abbrev pub is_label_stale : ℕ → ℕ → Option ℕ → Bool
is_label_stale now threshold none = false
is_label_stale now threshold (some updated) = ltb threshold (now - updated)

abbrev pub stale_among : List JiraLabel → Bool → List String → Option String
stale_among [] stale labels = none
stale_among (in_flight ∷ rest) stale labels =
    let later = stale_among rest stale labels in
    if contains labels (label in_flight)
      && not (any (is_blocking (label in_flight)) labels)
      && stale
    then some (label in_flight)
    else later

unfoldable pub find_stale_in_flight_label : ℕ → ℕ → FoundIssue → List String → Option String
find_stale_in_flight_label now threshold issue labels =
    stale_among in_flight_labels (is_label_stale now threshold issue.updated) labels

-- The rest: other labels of Ymir, or the label that asks for another run.
unfoldable pub mark_labels : String → List String → Marks → Marks
mark_labels key labels marks =
    if contains labels (label JiraLabel.retry_needed)
    then (if has_in_progress labels then mark_existing key marks else mark_retry key marks)
    else if any (λ l. true) labels
    then mark_existing key marks
    else marks

module _ (services : Services) (settings : Settings) where
  -- An issue with `ymir_todo`, from what is known of who added the label.
  unfoldable pub mark_todo : String → Result Bool → Marks → Do Marks
  mark_todo key (raised e) marks log =
      if is_request_exception e then (ok (mark_existing key marks), log) else (raised e, log)
  mark_todo key (ok true) marks log = (ok (mark_user key marks), log)
  mark_todo key (ok false) marks log =
      let (done, log') = try_edit services settings key [] (label JiraLabel.todo ∷ []) log in
      (ok (mark_existing key marks), log')

  -- An issue whose in-flight label is stale and whose task is in no queue.
  unfoldable pub mark_stale : String → String → Marks → Do Marks
  mark_stale key stale_label marks log =
      let (done, log') =
        try_edit services settings key (label JiraLabel.retry_needed ∷ []) (stale_label ∷ []) log in
      (ok (if done then mark_retry key marks else mark_existing key marks), log')

  unfoldable pub mark_in_flight : String → List String → Option String → Marks → Do Marks
  mark_in_flight key labels none marks log = (ok (mark_labels key labels marks), log)
  mark_in_flight key labels (some stale_label) marks log =
      if contains marks.existing key
      then (ok (mark_labels key labels marks), log)
      else mark_stale key stale_label marks log

  unfoldable pub mark_issue : FoundIssue → Marks → Do Marks
  mark_issue issue marks log =
      let labels = ymir_labels issue.labels in
      if issue.key == ""
      then (ok marks, log)
      else if contains labels (label JiraLabel.todo) && not (has_in_progress labels)
      then mark_todo issue.key
          (label_added_by_rh_employee services log issue.key (label JiraLabel.todo)) marks log
      else mark_in_flight issue.key labels
          (find_stale_in_flight_label (services.now log) settings.stale_label_threshold issue
            labels)
          marks log

  unfoldable pub mark_issues : List FoundIssue → Marks → Do Marks
  mark_issues [] marks log = (ok marks, log)
  mark_issues (issue ∷ issues) marks log =
      let (r, log') = mark_issue issue marks log in after (mark_issues issues) r log'
