-- ===== src/Supervisor/IssueHandler/Run/Delays.antt =====
-- How long a step of an issue puts the issue off: every outcome is -1, or at most three hours.
use ai_workflows.Common.{
  refl, ◌≡◌, String, Bool, Option, none, some, not, any, contains, length, eqb, arith, ◌&&◌, ◌+◌,
  ◌-◌, ltb, is_some,
}
use ai_workflows.Effects.Preserves.{Returns, Returns-if, Returns-bind, Returns-pure, Returns-raise}
use ai_workflows.Supervisor.Types.{
  IssueStatus, Erratum, FullIssue, TestingState, WorkflowResult, seconds,
}
use ai_workflows.Supervisor.Requests.{Log}
use ai_workflows.Effects.{ok}
use ai_workflows.Supervisor.Services.{Services, BaselineTests, TestingAnalysis}
use ai_workflows.Supervisor.IssueHandler.Resolve.Outcome.{
  InThreeHours, resolve_flag_attention-InThreeHours, resolve_set_status-InThreeHours,
  resolve_start_reproduction-InThreeHours, resolve_check_reproduction-InThreeHours,
}
use ai_workflows.Supervisor.IssueHandler.Resolve.{resolve_flag_attention}
use ai_workflows.Supervisor.IssueHandler.Run
use ai_workflows.Supervisor.IssueHandler.Run.{target_label}

module _ (services : Services) (dry_run ignore : Bool) (issue : FullIssue) where
  flag :
      (why : String) (details : Option String)
      → Returns InThreeHours (resolve_flag_attention services dry_run issue why details)
  flag = resolve_flag_attention-InThreeHours services dry_run issue

  await_erratum-InThreeHours :
      Returns InThreeHours (Run.await_erratum services dry_run ignore issue)
  unfolding Run.await_erratum
  await_erratum-InThreeHours = Returns-bind _ _ (λ latest. Returns-bind _ _ (λ now.
      Returns-if (ltb ((now - latest) + (latest - now)) (seconds 86400)) _ _
        (Returns-pure _ (omega arith)) (flag _ _)))

  after_analysis-InThreeHours :
      (erratum : Erratum) (baseline : Option BaselineTests) (analysis : TestingAnalysis)
      (state : TestingState)
      → Returns InThreeHours
          (Run.after_analysis services dry_run ignore issue erratum baseline analysis state)
  unfolding Run.after_analysis
  after_analysis-InThreeHours erratum baseline analysis TestingState.passed =
      resolve_set_status-InThreeHours services dry_run issue _ _
  after_analysis-InThreeHours erratum baseline analysis TestingState.waived =
      resolve_set_status-InThreeHours services dry_run issue _ _
  after_analysis-InThreeHours erratum baseline analysis TestingState.failed =
      Returns-if (Run.wants_reproduction analysis.failed_test_ids baseline) _ _
        (resolve_start_reproduction-InThreeHours services dry_run issue _ _ _) (flag _ _)
  after_analysis-InThreeHours erratum baseline analysis TestingState.not_running = flag _ _
  after_analysis-InThreeHours erratum baseline analysis TestingState.error = flag _ _
  after_analysis-InThreeHours erratum baseline analysis TestingState.pending =
      Returns-pure _ (omega arith)
  after_analysis-InThreeHours erratum baseline analysis TestingState.running =
      Returns-pure _ (omega arith)

  analyse-InThreeHours :
      (erratum : Erratum) → Returns InThreeHours (Run.analyse services dry_run ignore issue erratum)
  unfolding Run.analyse
  analyse-InThreeHours erratum =
      Returns-bind _ _ (λ analysis. after_analysis-InThreeHours erratum _ analysis analysis.state)

  in_integration-InThreeHours :
      (link : String) → Returns InThreeHours (Run.in_integration services dry_run ignore issue link)
  unfolding Run.in_integration
  in_integration-InThreeHours link =
      Returns-if (contains issue.labels "ymir_reproducing_tests") _ _
        (resolve_check_reproduction-InThreeHours services dry_run issue)
        (Returns-bind _ _ (λ erratum.
          Returns-if (Run.is_new_files erratum.status) _ _ (Returns-pure _ (omega arith))
            (analyse-InThreeHours erratum)))

  to_integration-InThreeHours :
      Returns InThreeHours (Run.to_integration services dry_run ignore issue)
  unfolding Run.to_integration
  to_integration-InThreeHours = resolve_set_status-InThreeHours services dry_run issue _ _

  by_status-InThreeHours :
      (link : String) (status : IssueStatus)
      → Returns InThreeHours (Run.by_status services dry_run ignore issue link status)
  unfolding Run.by_status
  by_status-InThreeHours link IssueStatus.integration = in_integration-InThreeHours link
  by_status-InThreeHours link IssueStatus.new = to_integration-InThreeHours
  by_status-InThreeHours link IssueStatus.planning = to_integration-InThreeHours
  by_status-InThreeHours link IssueStatus.in_progress = to_integration-InThreeHours
  by_status-InThreeHours link IssueStatus.release_pending = Returns-pure _ refl
  by_status-InThreeHours link IssueStatus.closed = Returns-pure _ refl
  by_status-InThreeHours link IssueStatus.refinement = Returns-raise _
  by_status-InThreeHours link IssueStatus.done = Returns-raise _

module _ (services : Services) (dry_run ignore : Bool) (issue : FullIssue) where
  run_before-InThreeHours :
      Returns InThreeHours (Run.run_before_errata_created services dry_run ignore issue)
  unfolding Run.run_before_errata_created
  run_before-InThreeHours =
      Returns-if (not (any target_label issue.labels)) _ _ (Returns-pure _ refl) (
        Returns-bind _ _ (λ r.
          Returns-if (contains r.1.labels "ymir_merged") _ _
            (await_erratum-InThreeHours services dry_run ignore r.1)
            (Returns-pure _ (omega arith))))

  run_after-InThreeHours :
      (link : String)
      → Returns InThreeHours (Run.run_after_errata_created services dry_run ignore issue link)
  unfolding Run.run_after_errata_created
  run_after-InThreeHours link = Returns-if (not (is_some issue.fixed_in_build)) _ _ (flagged _) (
      Returns-if (not (Run.passed_preliminary issue.preliminary_testing)) _ _ (flagged _) (
        Returns-if (not (Run.has_coverage issue.test_coverage)) _ _ (flagged _) (
          Returns-bind _ _
            (λ r. by_status-InThreeHours services dry_run ignore r.1 link r.1.status))))
    where
      flagged :
          (why : String)
          → Returns InThreeHours (resolve_flag_attention services dry_run issue why none)
      flagged why = resolve_flag_attention-InThreeHours services dry_run issue why none

  by_link-InThreeHours :
      (link : Option String) → Returns InThreeHours (Run.by_link services dry_run ignore issue link)
  unfolding Run.by_link
  by_link-InThreeHours none = run_before-InThreeHours
  by_link-InThreeHours (some link) = run_after-InThreeHours link

  run-Returns : Returns InThreeHours (Run.run services dry_run ignore issue)
  unfolding Run.run
  run-Returns =
      Returns-if (contains issue.labels "ymir_needs_attention" && not ignore) _ _
        (Returns-pure _ refl)
        (Returns-if (not (eqb (length issue.components) 1)) _ _
          (resolve_flag_attention-InThreeHours services dry_run issue _ _)
          (by_link-InThreeHours issue.errata_link))

  -- A step of an issue that returns either drops the work item with -1, or puts it off by at most
  -- three hours.
  pub run-InThreeHours :
      (log : Log) (result : WorkflowResult)
      → (Run.run services dry_run ignore issue log).0 ≡ ok result
      → InThreeHours result
  run-InThreeHours log result returned = run-Returns.result log result returned
