-- ===== src/Supervisor/IssueHandler/Merged.antt =====
-- The search for merged merge requests in ymir/supervisor/issue_handler.py.
pub mod Traffic
use Prim.Native.Nat.{max}
use ai_workflows.Common.{
  ℕ, String, ◌<>◌, Bool, true, false, none, some, List, [], ◌∷◌, ◌++◌, ◌&&◌, ◌||◌, not, contains,
  if◌then◌else◌,
}
use ai_workflows.Effects.{pure, lift, ask, ◌>>=◌, ◌>>◌}
use ai_workflows.Supervisor.Types.{
  MergeRequestState, MergeRequest, FullIssue, datetime_min_utc, gitlab_groups,
}
use ai_workflows.Supervisor.Requests.{Call}
use ai_workflows.Supervisor.Services.{Services}
use ai_workflows.Supervisor.Jira.{text, add_issue_label}
use ai_workflows.Supervisor.IssueHandler.Resolve.{first_component}

-- `issue.labels.append(label)`
unfoldable pub append_label : FullIssue → String → FullIssue
append_label issue label = record issue {
  issue = record issue.issue { labels = issue.labels ++ label ∷ [] };
}

-- `max((mr.merged_at or DATETIME_MIN_UTC for mr in mrs), default=DATETIME_MIN_UTC)`; a moment is
-- never false, and no moment is before the default.
unfoldable pub latest_merge : List MergeRequest → ℕ
latest_merge [] = datetime_min_utc
latest_merge (mr ∷ mrs) =
    max (elim mr.merged_at [ none ↦ datetime_min_utc | some t ↦ t ]) (latest_merge mrs)

module _ (services : Services) (dry_run : Bool) where
  merged_mrs : FullIssue → String → String → Call (List MergeRequest)
  merged_mrs issue component group = ask (λ log.
      services.project_mrs log ("redhat/" <> (group <> ("/" <> component))) issue.key
        (some MergeRequestState.merged))

  -- The label is added for the first merge request of a group; without one, `next` follows.
  label_from_first :
      FullIssue → List MergeRequest → Call (Bool × FullIssue) → Call (Bool × FullIssue)
  label_from_first issue [] next = next
  label_from_first issue (mr ∷ mrs) next =
      add_issue_label services dry_run issue.key "ymir_merged" (
        text (
          "A [merge request| "
          <> (mr.url
              <> ("]. resolving this issue "
                  <> "has been merged; waiting for errata creation and final testing."))))
      >> pure (true, append_label issue "ymir_merged")

  label_from_groups : FullIssue → String → List String → Call (Bool × FullIssue)
  unfolding merged_mrs label_from_first append_label
  label_from_groups issue component [] = pure (false, issue)
  label_from_groups issue component (group ∷ groups) = do
    mrs ← merged_mrs issue component group
    label_from_first issue mrs (label_from_groups issue component groups)

  unfoldable pub label_merge_if_needed : FullIssue → Call (Bool × FullIssue)
  unfolding label_from_groups first_component
  label_merge_if_needed issue = do
    component ← lift (first_component issue)
    if (contains issue.labels "ymir_backported" || contains issue.labels "ymir_rebased")
          && not (contains issue.labels "ymir_merged")
        then label_from_groups issue component gitlab_groups
        else pure (false, issue)

  mrs_of_groups : FullIssue → String → List String → Call (List MergeRequest)
  unfolding merged_mrs
  mrs_of_groups issue component [] = pure []
  mrs_of_groups issue component (group ∷ groups) = do
    mrs ← merged_mrs issue component group
    more ← mrs_of_groups issue component groups
    pure (mrs ++ more)

  unfoldable pub get_latest_merged_timestamp : FullIssue → Call ℕ
  unfolding mrs_of_groups latest_merge first_component
  get_latest_merged_timestamp issue = do
    component ← lift (first_component issue)
    mrs ← mrs_of_groups issue component gitlab_groups
    pure (latest_merge mrs)
