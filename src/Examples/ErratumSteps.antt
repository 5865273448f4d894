-- ===== src/Examples/ErratumSteps.antt =====
-- Steps of an erratum.
use ai_workflows.Common.{inr, true, false, [], ◌≡◌, refl, ◌∷◌}
use ai_workflows.Effects.{◌>>=◌}
use ai_workflows.Supervisor.Types.{errata_jotnar_bot_email, IssueStatus}
use ai_workflows.Supervisor.Requests.{put_owner}
use ai_workflows.Supervisor.Jira.DryRun.{Extends}
use ai_workflows.Supervisor.Jira.{get_issue_by_jotnar_tag}
use ai_workflows.Supervisor.ErratumHandler.Lists.{
  erratum_needs_attention, jotnar_owns_all_issues, erratum_get_issues, issues_of, cached_or_read,
}
use ai_workflows.Supervisor.ErratumHandler.Run.{run}
use ai_workflows.Supervisor.ErratumHandler.Run.Safety.{
  ErratumRequest, run-ErratumRequest, run-dry_run_owned, run-dry_run_takes_over,
}
use ai_workflows.Examples.Services.{services, issue_in, own_erratum, foreign_erratum}

run-ErratumRequest_example :
    Extends (ErratumRequest services own_erratum) [] (run services false false own_erratum []).1
run-ErratumRequest_example = run-ErratumRequest services false false own_erratum []

run-dry_run_owned_example : (run services true false own_erratum []).1 ≡ []
run-dry_run_owned_example = run-dry_run_owned services false own_erratum [] refl

run-dry_run_takes_over_example :
    (run services true false foreign_erratum []).1 ≡ put_owner 7 errata_jotnar_bot_email ∷ []
unfolding erratum_get_issues issues_of cached_or_read jotnar_owns_all_issues erratum_needs_attention
    get_issue_by_jotnar_tag ◌>>=◌
run-dry_run_takes_over_example =
    run-dry_run_takes_over services false foreign_erratum (issue_in IssueStatus.integration ∷ []) []
      (inr refl) refl refl refl
