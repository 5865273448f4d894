-- ===== src/Examples/IssueSteps.antt =====
-- Steps of an issue.
use ai_workflows.Common.{true, false, [], ◌≡◌, refl}
use ai_workflows.Effects.{◌>>=◌}
use ai_workflows.Supervisor.Types.{minus_one}
use ai_workflows.Supervisor.Jira.DryRun.{Extends}
use ai_workflows.Supervisor.IssueHandler.Resolve.Outcome.{InThreeHours}
use ai_workflows.Supervisor.IssueHandler.Run.{
  run, by_link, run_after_errata_created, by_status, in_integration, analyse, after_analysis,
}
use ai_workflows.Supervisor.IssueHandler.Merged.{label_merge_if_needed}
use ai_workflows.Supervisor.IssueHandler.Resolve.{resolve_set_status}
use ai_workflows.Supervisor.Jira.{change_issue_status}
use ai_workflows.Supervisor.IssueHandler.Run.Safety.{StepRequest, run-StepRequest, run-dry_run}
use ai_workflows.Supervisor.IssueHandler.Run.Delays.{run-InThreeHours}
use ai_workflows.Examples.Services.{services, full_issue}

run-StepRequest_example :
    Extends (StepRequest services full_issue) [] (run services false false full_issue []).1
run-StepRequest_example = run-StepRequest services false false full_issue []

run-dry_run_example : (run services true false full_issue []).1 ≡ []
run-dry_run_example = run-dry_run services false full_issue []

run-InThreeHours_example :
    InThreeHours (record { status = "all passed"; reschedule_in = minus_one })
unfolding run ◌>>=◌ by_link run_after_errata_created label_merge_if_needed by_status in_integration
    analyse after_analysis resolve_set_status change_issue_status
run-InThreeHours_example =
    run-InThreeHours services false false full_issue []
      (record { status = "all passed"; reschedule_in = minus_one }) refl
