-- ===== src/Supervisor/IssueHandler/Merged/Traffic.antt =====
-- Which requests the search for merged merge requests makes, and what it changes of the issue.
use ai_workflows.Common.{String, ◌≡◌, refl, ◌⊎◌, inl, inr, Bool, true, false, List, [], ◌∷◌}
use ai_workflows.Effects.Preserves.{
  Preserves, Preserves-bind, keeping, Returns, Returns-pure, Returns-bind, Returns-if,
}
use ai_workflows.Supervisor.Types.{MergeRequest, FullIssue, gitlab_groups}
use ai_workflows.Supervisor.Requests.{Request, Log, Call}
use ai_workflows.Supervisor.Services.{Services}
use ai_workflows.Supervisor.Jira.{send}
use ai_workflows.Supervisor.Jira.Traffic.{Plain, keeps-add_issue_label}
use ai_workflows.Supervisor.IssueHandler.Merged

-- The issue as it was, or with the label `ymir_merged` added.
abbrev pub Labelled : FullIssue → Bool × FullIssue → Type 0
Labelled issue r = (r ≡ (false, issue)) ⊎ (r ≡ (true, Merged.append_label issue "ymir_merged"))

module _ (services : Services) (dry_run : Bool) {P : Log → Type 0} (issue : FullIssue)
    (plain : (r : Request) → Plain issue.key r → Preserves P (send services dry_run r)) where
  keeps-label_from_first :
      (mrs : List MergeRequest) (next : Call (Bool × FullIssue))
      → Preserves P next
      → Preserves P (Merged.label_from_first services dry_run issue mrs next)
  unfolding Merged.label_from_first
  keeps-label_from_first [] next k = k
  keeps-label_from_first (mr ∷ mrs) next k =
      search (keeping, keeps-add_issue_label services dry_run issue.key plain)

  keeps-label_from_groups :
      (component : String) (groups : List String)
      → Preserves P (Merged.label_from_groups services dry_run issue component groups)
  unfolding Merged.label_from_groups
  keeps-label_from_groups component [] = search keeping
  keeps-label_from_groups component (g ∷ gs) =
      Preserves-bind _ _ (search keeping)
        (λ mrs. keeps-label_from_first mrs _ (keeps-label_from_groups component gs))

  pub keeps-label_merge_if_needed :
      Preserves P (Merged.label_merge_if_needed services dry_run issue)
  unfolding Merged.label_merge_if_needed
  keeps-label_merge_if_needed = search (keeping, keeps-label_from_groups) depth 10

module _ (services : Services) (dry_run : Bool) (issue : FullIssue) where
  label_from_first-Labelled :
      (mrs : List MergeRequest) (next : Call (Bool × FullIssue))
      → Returns (Labelled issue) next
      → Returns (Labelled issue) (Merged.label_from_first services dry_run issue mrs next)
  unfolding Merged.label_from_first
  label_from_first-Labelled [] next k = k
  label_from_first-Labelled (mr ∷ mrs) next k = Returns-bind _ _ (λ _. Returns-pure _ (inr refl))

  label_from_groups-Labelled :
      (component : String) (groups : List String)
      → Returns (Labelled issue) (Merged.label_from_groups services dry_run issue component groups)
  unfolding Merged.label_from_groups
  label_from_groups-Labelled component [] = Returns-pure _ (inl refl)
  label_from_groups-Labelled component (g ∷ gs) =
      Returns-bind _ _
        (λ mrs. label_from_first-Labelled mrs _ (label_from_groups-Labelled component gs))

  pub label_merge_if_needed-Labelled :
      Returns (Labelled issue) (Merged.label_merge_if_needed services dry_run issue)
  unfolding Merged.label_merge_if_needed
  label_merge_if_needed-Labelled = Returns-bind _ _ (λ component.
      Returns-if _ _ _ (label_from_groups-Labelled component gitlab_groups)
        (Returns-pure _ (inl refl)))

module _ (services : Services) (dry_run : Bool) {P : Log → Type 0} (issue : FullIssue) where
  mrs_of_groups-reads :
      (component : String) (groups : List String)
      → Preserves P (Merged.mrs_of_groups services dry_run issue component groups)
  unfolding Merged.mrs_of_groups
  mrs_of_groups-reads component [] = search keeping
  mrs_of_groups-reads component (g ∷ gs) =
      Preserves-bind _ _ (search keeping)
        (λ mrs. Preserves-bind _ _ (mrs_of_groups-reads component gs) (λ more. search keeping))

  pub get_latest_merged_timestamp-reads :
      Preserves P (Merged.get_latest_merged_timestamp services dry_run issue)
  unfolding Merged.get_latest_merged_timestamp
  get_latest_merged_timestamp-reads = search (keeping, mrs_of_groups-reads) depth 10
