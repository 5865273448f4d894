-- ===== src/IssueFetcher/Consolidate.antt =====
-- `_process_consolidation_labels`: pairs of issues whose labels ask for one merge request.
pub mod Pairs
pub mod Sorted
pub mod Verified
use ai_workflows.Common.{
  ℕ, ◌+◌, String, ◌<>◌, Bool, true, false, ◌&&◌, ◌||◌, not, Option, none, some, List, [], ◌∷◌,
  contains, ◌==◌, if◌then◌else◌,
}
use ai_workflows.Effects.{Result, ok, raised, Exn, after}
use ai_workflows.Constants.{JiraLabel, label}
use ai_workflows.Versions.{parse_rhel_version, construct_internal_branch_name}
use ai_workflows.Redis.Hash.{RedisHash}
use ai_workflows.MergeQueue.Job.{Json, SubmitResult}
use ai_workflows.MergeQueue.Queue.{submit_merge_job}
use ai_workflows.IssueFetcher.Types.{
  FoundIssue, Settings, Events, Services, is_request_exception, try_edit, post_jira_comment,
}
use ai_workflows.IssueFetcher.Author.{label_added_by_rh_employee}

-- `{"key": …, "component": …, "branch": …}`
pub record Entry : Type 0 where
  pub key : String
  pub component : String
  pub branch : String

abbrev pub Bucket : Type 0
Bucket = List (String × Entry)

-- A dictionary keeps the place of a key that it has.
abbrev pub put : String → Entry → Bucket → Bucket
put k e [] = (k, e) ∷ []
put k e ((j, d) ∷ bucket) =
    let rest = put k e bucket in if j == k then (k, e) ∷ bucket else (j, d) ∷ rest

-- `pop(key, None)`
abbrev pub pop : String → Bucket → Option Entry
pop k [] = none
pop k ((j, e) ∷ bucket) = let rest = pop k bucket in if j == k then some e else rest

pub record Buckets : Type 0 where
  pub base : Bucket
  pub next : Bucket

-- What the check of a label's author leads to.
pub data Check : Type 0 where
  verified unverified skipped : Check
  fatal : Exn → Check

abbrev pub check_of : Result Bool → Check
check_of (ok true) = verified
check_of (ok false) = unverified
check_of (raised e) = if is_request_exception e then skipped else fatal e

-- The first name of a list that is not empty, of components and of versions.
abbrev pub first_component : List (Option String) → Option String
first_component [] = none
first_component (none ∷ cs) = first_component cs
first_component (some c ∷ cs) = let rest = first_component cs in if c == "" then rest else some c

unfoldable pub resolve_branch_from_fix_versions : List String → Option String
resolve_branch_from_fix_versions [] = none
resolve_branch_from_fix_versions (name ∷ names) =
    let rest = resolve_branch_from_fix_versions names in
    elim (parse_rhel_version name) [
      | some parsed ↦ some (construct_internal_branch_name parsed.0 parsed.1.0)
      | none ↦ rest
    ]

abbrev pub put_if : Bool → String → Entry → Bucket → Bucket
put_if b k e bucket = if b then put k e bucket else bucket

abbrev pub file_entry : Bool → Bool → Entry → Buckets → Buckets
file_entry is_base is_next e buckets = record {
  base = put_if is_base (e.component <> (":" <> e.branch)) e buckets.base;
  next = put_if is_next (e.component <> (":" <> e.branch)) e buckets.next;
}

-- An issue whose labels are verified, with its component and its branch.
abbrev pub file_issue : Bool → Bool → String → Option String → Option String → Buckets → Buckets
file_issue is_base is_next key none branch buckets = buckets
file_issue is_base is_next key (some component) none buckets = buckets
file_issue is_base is_next key (some component) (some branch) buckets =
    if branch == ""
    then buckets
    else file_entry is_base is_next (record { key = key; component = component; branch = branch })
        buckets

module _ (services : Services) (settings : Settings) where
  abbrev pub check : Events → String → JiraLabel → Check
  check log key l = check_of (label_added_by_rh_employee services log key (label l))

  -- Labels that fail the check are removed, and their issue is passed over.
  unfoldable pub drop_labels : FoundIssue → List String → Buckets → Events → Result Buckets × Events
  drop_labels issue removed buckets log =
      let (done, log') = try_edit services settings issue.key [] removed log in (ok buckets, log')

  -- The check of `ymir_consolidate_next`, after that of `ymir_consolidate_base`: whether the issue
  -- is a base, and the labels to remove so far.
  unfoldable pub after_base :
      FoundIssue → Bool → List String → Buckets → Events → Check → Result Buckets × Events
  after_base issue is_base removed buckets log skipped = (ok buckets, log)
  after_base issue is_base removed buckets log (fatal e) = (raised e, log)
  after_base issue is_base [] buckets log verified = (
    ok (
        file_issue is_base true issue.key (first_component issue.components)
          (resolve_branch_from_fix_versions issue.fix_versions) buckets),
    log,
  )
  after_base issue is_base (l ∷ ls) buckets log verified = drop_labels issue (l ∷ ls) buckets log
  after_base issue is_base [] buckets log unverified =
      drop_labels issue (label JiraLabel.consolidate_next ∷ []) buckets log
  after_base issue is_base (l ∷ ls) buckets log unverified =
      drop_labels issue (l ∷ label JiraLabel.consolidate_next ∷ []) buckets log

  -- An issue without `ymir_consolidate_next`.
  unfoldable pub only_base : FoundIssue → List String → Buckets → Events → Result Buckets × Events
  only_base issue [] buckets log = (
    ok (
        file_issue true false issue.key (first_component issue.components)
          (resolve_branch_from_fix_versions issue.fix_versions) buckets),
    log,
  )
  only_base issue (l ∷ ls) buckets log = drop_labels issue (l ∷ ls) buckets log

  unfoldable pub then_next :
      FoundIssue → Bool → Bool → List String → Buckets → Events → Result Buckets × Events
  then_next issue is_next is_base removed buckets log =
      if is_next
      then after_base issue is_base removed buckets log
          (check log issue.key JiraLabel.consolidate_next)
      else only_base issue removed buckets log

  unfoldable pub base_checked :
      FoundIssue → Bool → Buckets → Events → Check → Result Buckets × Events
  base_checked issue is_next buckets log verified = then_next issue is_next true [] buckets log
  base_checked issue is_next buckets log unverified =
      then_next issue is_next false (label JiraLabel.consolidate_base ∷ []) buckets log
  base_checked issue is_next buckets log skipped = (ok buckets, log)
  base_checked issue is_next buckets log (fatal e) = (raised e, log)

  unfoldable pub sort_issue : FoundIssue → Buckets → Events → Result Buckets × Events
  sort_issue issue buckets log =
      if issue.key == ""
      then (ok buckets, log)
      else if contains issue.labels (label JiraLabel.consolidate_base)
      then base_checked issue (contains issue.labels (label JiraLabel.consolidate_next)) buckets log
          (check log issue.key JiraLabel.consolidate_base)
      else if contains issue.labels (label JiraLabel.consolidate_next)
      then after_base issue false [] buckets log (check log issue.key JiraLabel.consolidate_next)
      else (ok buckets, log)

  unfoldable pub sort_issues : List FoundIssue → Buckets → Events → Result Buckets × Events
  sort_issues [] buckets log = (ok buckets, log)
  sort_issues (issue ∷ issues) buckets log =
      let (r, log') = sort_issue issue buckets log in after (sort_issues issues) r log'
