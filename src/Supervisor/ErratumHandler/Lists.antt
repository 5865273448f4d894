-- ===== src/Supervisor/ErratumHandler/Lists.antt =====
-- The free functions of ymir/supervisor/erratum_handler.py.
use ai_workflows.Common.{
  ℕ, String, ◌<>◌, Bool, true, false, Option, none, some, List, [], ◌∷◌, ◌&&◌, all, contains, ◌==◌,
  is_some, to_str, if◌then◌else◌,
}
use ai_workflows.Effects.{pure, ask, ◌>>=◌}
use ai_workflows.Supervisor.Types.{IssueStatus, Erratum, Issue, JotnarTag, jira_jotnar_team}
use ai_workflows.Supervisor.Requests.{Call}
use ai_workflows.Supervisor.Services.{Services, FileList, ErratumBuild}
use ai_workflows.Supervisor.Jira.{get_issue_by_jotnar_tag}
use ai_workflows.Supervisor.Errata.{get_erratum_advisory_url}

-- `d.get(key)`
module _ {ℓ} {V : Type ℓ} where
  abbrev pub lookup : String → List (String × V) → Option V
  lookup k [] = none
  lookup k ((j, v) ∷ d) = if j == k then some v else lookup k d

  -- `a == b` for dictionaries: the same keys, with values that `eq` finds equal
  abbrev found_equal : (V → V → Bool) → V → Option V → Bool
  found_equal eq v none = false
  found_equal eq v (some w) = eq v w

  abbrev pub dict_eq : (V → V → Bool) → List (String × V) → List (String × V) → Bool
  dict_eq eq a b =
      all (λ e. found_equal eq e.1 (lookup e.0 b)) a && all (λ e. is_some (lookup e.0 a)) b

-- `a == b` for sets
abbrev pub set_eq : List String → List String → Bool
set_eq a b = all (contains b) a && all (contains a) b

unfoldable pub same_file_list : FileList → FileList → Bool
same_file_list = dict_eq (dict_eq set_eq)

unfoldable pub needs_attention_tag : ℕ → JotnarTag
needs_attention_tag erratum_id = record { id = to_str erratum_id }

abbrev pub is_release_pending : IssueStatus → Bool
is_release_pending IssueStatus.release_pending = true
is_release_pending _ = false

unfoldable pub all_issues_are_release_pending : List Issue → Bool
all_issues_are_release_pending issues = all (λ i. is_release_pending i.status) issues

abbrev pub team_is : String → Option String → Bool
team_is team none = false
team_is team (some t) = t == team

unfoldable pub jotnar_owns_all_issues : List Issue → Bool
jotnar_owns_all_issues issues = all (λ i. team_is jira_jotnar_team i.assigned_team) issues

module _ (services : Services) where
  unfoldable pub erratum_needs_attention : ℕ → Call Bool
  erratum_needs_attention erratum_id = do
    issue ←
        get_issue_by_jotnar_tag services "RHELMISC" (needs_attention_tag erratum_id)
          (some "ymir_needs_attention")
    pure (is_some issue)

  -- `issue_cache.get(key) or get_issue(key)`
  unfoldable pub cached_or_read : String → Option Issue → Call Issue
  cached_or_read key (some issue) = pure issue
  cached_or_read key none = do full ← ask (λ log. services.jira_issue log key); pure full.issue

  unfoldable pub issues_of : List (String × Issue) → List String → Call (List Issue)
  issues_of cache [] = pure []
  issues_of cache (key ∷ keys) = do
    issue ← cached_or_read key (lookup key cache)
    issues ← issues_of cache keys
    pure (issue ∷ issues)

  unfoldable pub erratum_get_issues : List (String × Issue) → Erratum → Call (List Issue)
  erratum_get_issues issue_cache erratum = issues_of issue_cache erratum.jira_issues

  unfoldable pub compare_file_lists : ErratumBuild → ErratumBuild → ℕ → Bool × String
  compare_file_lists current_build previous_build previous_erratum_id =
      let is_matched =
        same_file_list current_build.package_file_list previous_build.package_file_list in
      (
        is_matched,
        "ymir-product-listings-checked("
            <> (current_build.nvr
                <> (")\n\nCompared the file lists for "
                    <> (current_build.nvr
                        <> (" to the file lists for\n"
                            <> (previous_build.nvr
                                <> (" in "
                                    <> (get_erratum_advisory_url previous_erratum_id
                                        <> (" -\n"
                                            <> (if is_matched
                                                then "the same subpackages are shipped to each variant. Proceeding with the errata workflow."
                                                else "differences were found.\n\nOld file list:\n"
                                                  <> (services.json_of_build previous_build
                                                      <> ("\n\nNew file list:\n"
                                                          <> (services.json_of_build current_build
                                                            <> "\n\nFlagging for human attention.")))))))))))),
      )
