-- ===== src/Supervisor/ErratumHandler/Run/Reads.antt =====
-- What a step of an erratum reads makes no request.
use ai_workflows.Common.{ℕ, String, ◌≡◌, refl, Option, none, some, List, [], ◌∷◌}
use ai_workflows.Effects.{ok}
use ai_workflows.Effects.Preserves.{
  Preserves, Preserves-bind, keeping, Returns, Returns-ask, Returns-pure, Returns-bind_value,
}
use ai_workflows.Supervisor.Types.{Erratum, Issue, FullIssue, JotnarTag}
use ai_workflows.Supervisor.Requests.{Log}
use ai_workflows.Supervisor.Services.{Services}
use ai_workflows.Supervisor.Jira
use ai_workflows.Supervisor.Jira.{send}
use ai_workflows.Supervisor.Errata
use ai_workflows.Supervisor.Errata.{all_ok}
use ai_workflows.Supervisor.ErratumHandler.Lists
use ai_workflows.Supervisor.ErratumHandler.Lists.{
  jotnar_owns_all_issues, all_issues_are_release_pending,
}
use ai_workflows.Supervisor.ErratumHandler.Run.Permission.{AsRead}

module _ (services : Services) {P : Log → Type 0} where
  pub keeps-get_issue_by_jotnar_tag :
      (project : String) (tag : JotnarTag) (label : Option String)
      → Preserves P (Jira.get_issue_by_jotnar_tag services project tag label)
  unfolding Jira.get_issue_by_jotnar_tag
  keeps-get_issue_by_jotnar_tag project tag label = search keeping

  pub keeps-has_magic_string :
      (id : ℕ) (magic : String)
      → Preserves P (Errata.erratum_has_magic_string_in_comments services id magic)
  unfolding Errata.erratum_has_magic_string_in_comments
  keeps-has_magic_string id magic = search keeping

  pub keeps-erratum_needs_attention :
      (id : ℕ) → Preserves P (Lists.erratum_needs_attention services id)
  unfolding Lists.erratum_needs_attention
  keeps-erratum_needs_attention id = search (keeping, keeps-get_issue_by_jotnar_tag)

  pub keeps-cached_or_read :
      (key : String) (i : Option Issue) → Preserves P (Lists.cached_or_read services key i)
  unfolding Lists.cached_or_read
  keeps-cached_or_read key (some i) = search keeping
  keeps-cached_or_read key none = search keeping

  pub keeps-issues_of :
      (cache : List (String × Issue)) (keys : List String)
      → Preserves P (Lists.issues_of services cache keys)
  unfolding Lists.issues_of
  keeps-issues_of cache [] = search keeping
  keeps-issues_of cache (k ∷ ks) =
      Preserves-bind _ _ (keeps-cached_or_read k _)
        (λ i. Preserves-bind _ _ (keeps-issues_of cache ks) (λ is. search keeping))

  pub keeps-erratum_get_issues :
      (cache : List (String × Issue)) (erratum : Erratum)
      → Preserves P (Lists.erratum_get_issues services cache erratum)
  unfolding Lists.erratum_get_issues
  keeps-erratum_get_issues cache erratum = keeps-issues_of cache erratum.jira_issues

module _ (services : Services) where
  cached_or_read-reads :
      (key : String)
      → Returns
          (λ i.
            (log : Log) × (full : FullIssue) × (services.jira_issue log key ≡ ok full)
            × (full.issue ≡ i))
          (Lists.cached_or_read services key none)
  unfolding Lists.cached_or_read
  cached_or_read-reads key =
      Returns-bind_value _ _ (Returns-ask _)
        (λ full answer. Returns-pure _ (answer.0, full, answer.1, refl))

  pub issues_of-AsRead :
      (keys : List String) → Returns (AsRead services keys) (Lists.issues_of services [] keys)
  unfolding Lists.issues_of
  issues_of-AsRead [] = Returns-pure _ tt
  issues_of-AsRead (k ∷ ks) = Returns-bind_value _ _ (cached_or_read-reads k) (λ i read.
      Returns-bind_value _ _ (issues_of-AsRead ks) (λ is reads. Returns-pure _ (read, reads)))

  pub erratum_get_issues-AsRead :
      (erratum : Erratum)
      → Returns (AsRead services erratum.jira_issues) (Lists.erratum_get_issues services [] erratum)
  unfolding Lists.erratum_get_issues
  erratum_get_issues-AsRead erratum = issues_of-AsRead erratum.jira_issues
