-- ===== src/Supervisor/ErratumHandler/Run/Permission.antt =====
-- Which requests a step of an erratum may make, and when.
use ai_workflows.Common.{ℕ, String, ◌≡◌, ◌⊎◌, ◌∷◌, [], true, false, Option, some, none, List, All}
use ai_workflows.Effects.{ok}
use ai_workflows.Supervisor.Types.{ErrataStatus, errata_status_value, Erratum, Issue, FullIssue}
use ai_workflows.Supervisor.Requests.{
  LabelUpdate, CommentBody, IssueFields, Request, put_issue, post_issue, post_push, post_refresh,
  post_erratum_comment, Log,
}
use ai_workflows.Supervisor.Services.{Services, TransitionRuleSet, ErratumBuild}
use ai_workflows.Supervisor.Errata.{all_ok, in_comments}
use ai_workflows.Supervisor.ErratumHandler.Lists.{
  lookup, same_file_list, all_issues_are_release_pending, jotnar_owns_all_issues,
}
use ai_workflows.Supervisor.ErratumHandler.Advance.{is_rel_prep, checked_mark}
use ai_workflows.Supervisor.ErratumHandler.Run.{owned_by_bot}

-- The issues as Jira answered for the keys, each read at some moment of the step.
abbrev pub AsRead : Services → List String → List Issue → Type 0
AsRead services [] [] = Unit
AsRead services [] (i ∷ is) = (true ≡ false)
AsRead services (k ∷ ks) [] = (true ≡ false)
AsRead services (k ∷ ks) (i ∷ is) =
    ((log : Log) × (full : FullIssue) × (services.jira_issue log k ≡ ok full) × (full.issue ≡ i))
    × AsRead services ks is

-- The steps of the life of an erratum that the handler may take.
pub data Next : ErrataStatus → ErrataStatus → List Issue → Type 0 where
  to_qe : {related : List Issue} → Next ErrataStatus.new_files ErrataStatus.qe related
  to_rel_prep :
      {related : List Issue}
      → all_issues_are_release_pending related ≡ true
      → Next ErrataStatus.qe ErrataStatus.rel_prep related

-- Why the file list of a package needs no human: a comment of the erratum says that it was checked,
-- there is no earlier erratum, or it is the same as that of the earlier erratum.
pub data Checked (services : Services) (erratum : Erratum) : String × ErratumBuild → Type 0 where
  marked :
      (pkg : String) (build : ErratumBuild) (log : Log) (comments : Option (List String))
      → services.erratum_comments log erratum.id ≡ ok comments
      → (in_comments (checked_mark "ymir" build.nvr) comments ≡ true)
        ⊎ (in_comments (checked_mark "jotnar" build.nvr) comments ≡ true)
      → Checked services erratum (pkg, build)
  first_one :
      (pkg : String) (build : ErratumBuild) (log : Log) (prev : Option ℕ)
      → services.previous_erratum log erratum.id pkg ≡ ok prev
      → (prev ≡ none) ⊎ (prev ≡ some 0)
      → Checked services erratum (pkg, build)
  matched :
      (pkg : String) (build previous : ErratumBuild) (log log' : Log) (prev : ℕ)
      (builds : List (String × ErratumBuild))
      → services.previous_erratum log erratum.id pkg ≡ ok (some prev)
      → services.erratum_build_map log' prev ≡ ok builds
      → lookup pkg builds ≡ some previous
      → same_file_list build.package_file_list previous.package_file_list ≡ true
      → Checked services erratum (pkg, build)

-- The builds of the erratum were read, and the file list of each is checked.
pub record AllChecked (services : Services) (erratum : Erratum) : Type 0 where
  pub log : Log
  pub builds : List (String × ErratumBuild)
  pub read : services.erratum_build_map log erratum.id ≡ ok builds
  pub each : All (Checked services erratum) builds

-- When a step may change the state of the erratum.
pub record MayAdvance (services : Services) (erratum : Erratum) (new : ErrataStatus) : Type 0 where
  pub owned : owned_by_bot erratum ≡ true
  pub related : List Issue
  pub as_read : AsRead services erratum.jira_issues related
  pub next : Next erratum.status new related
  pub log : Log
  pub rule_set : TransitionRuleSet
  pub answered : services.transition_rules log erratum.id ≡ ok rule_set
  pub same_state : errata_status_value rule_set.to_status ≡ errata_status_value new
  pub rules_ok : all_ok rule_set ≡ true
  pub files : (is_rel_prep new ≡ false) ⊎ AllChecked services erratum

-- When a step may take the erratum over.
pub record MayTakeOver (services : Services) (erratum : Erratum) : Type 0 where
  pub not_owned : owned_by_bot erratum ≡ false
  pub related : List Issue
  pub as_read : AsRead services erratum.jira_issues related
  pub ours : jotnar_owns_all_issues related ≡ true

-- The requests about the erratum that leave its state and owner alone, and those that ask for
-- human attention.
pub data Harmless (erratum : Erratum) : Request → Type 0 where
  push : Harmless erratum (post_push erratum.id)
  refresh : Harmless erratum (post_refresh erratum.id)
  comment : (body : String) → Harmless erratum (post_erratum_comment erratum.id body)
  flagged :
      (key : String) (c : Option CommentBody)
      → Harmless erratum (put_issue key (LabelUpdate.add "ymir_needs_attention") c)
  filed :
      (f : IssueFields)
      → f.project ≡ "RHELMISC"
      → f.labels ≡ "ymir_needs_attention" ∷ []
      → Harmless erratum (post_issue f)
