-- ===== src/Supervisor/IssueHandler/Run.antt =====
-- `IssueHandler.run` and the two halves of the workflow in ymir/supervisor/issue_handler.py.
pub mod Permission
pub mod Traffic
pub mod Safety
pub mod Delays
use ai_workflows.Common.{
  ◌+◌, ◌-◌, String, ◌<>◌, Bool, true, false, Option, none, some, List, [], ◌∷◌, ◌&&◌, not, any, all,
  contains, text_or, eqb, ltb, length, is_some, join, map, ◌==◌, list_text, if◌then◌else◌,
}
use ai_workflows.Effects.{ok, exn, value_error, pure, raise, ask, ◌>>=◌}
use ai_workflows.Supervisor.Types.{
  IssueStatus, issue_status_value, PreliminaryTesting, TestCoverage, ErrataStatus, Erratum,
  FullIssue, TestingState, pos, WorkflowResult, seconds,
}
use ai_workflows.Supervisor.Requests.{Call}
use ai_workflows.Supervisor.Services.{Services, BaselineTests, TestingAnalysis}
use ai_workflows.Supervisor.IssueHandler.Resolve.{
  resolve_remove_work_item, resolve_wait_for, resolve_wait, resolve_set_status,
  resolve_flag_attention, resolve_start_reproduction, resolve_check_reproduction,
}
use ai_workflows.Supervisor.IssueHandler.Merged.{label_merge_if_needed, get_latest_merged_timestamp}

abbrev pub passed_preliminary : Option PreliminaryTesting → Bool
passed_preliminary (some PreliminaryTesting.pass) = true
passed_preliminary _ = false

abbrev pub has_coverage : Option (List TestCoverage) → Bool
has_coverage none = false
has_coverage (some []) = false
has_coverage (some (c ∷ cs)) = true

abbrev pub is_new_files : ErrataStatus → Bool
is_new_files ErrataStatus.new_files = true
is_new_files _ = false

-- `set(failed_test_ids) != {c.failed.id for c in baseline_tests.comparisons}`
unfoldable pub differs_from_baseline : List String → BaselineTests → Bool
differs_from_baseline ids tests = not (
    all (λ id. any (λ c. c.failed.id == id) tests.comparisons) ids
    && all (λ c. contains ids c.failed.id) tests.comparisons)

-- The test on a failed analysis: there are failed tests, and no baseline covers just those.
unfoldable pub wants_reproduction : Option (List String) → Option BaselineTests → Bool
unfolding differs_from_baseline
wants_reproduction none baseline = false
wants_reproduction (some []) baseline = false
wants_reproduction (some (id ∷ ids)) none = true
wants_reproduction (some (id ∷ ids)) (some tests) = differs_from_baseline (id ∷ ids) tests

abbrev ids_of : Option (List String) → List String
ids_of none = []
ids_of (some ids) = ids

abbrev target_label : String → Bool
target_label = contains ("ymir_backported" ∷ "ymir_rebased" ∷ "ymir_merged" ∷ [])

module _ (services : Services) (dry_run ignore_needs_attention : Bool) where
  -- The wait for an erratum, once the label `ymir_merged` is there.
  unfoldable pub await_erratum : FullIssue → Call WorkflowResult
  await_erratum issue = do
    latest ← get_latest_merged_timestamp services dry_run issue
    now ← ask (λ log. ok (services.now log))
    if ltb ((now - latest) + (latest - now)) (seconds 86400)
        then pure (resolve_wait_for "Wait for the associated erratum to be created" (pos 3600))
        else resolve_flag_attention services dry_run issue
            "A merge request was merged for this issue more than 24 hours ago but no errata was created. Please investigate and look for gating failures or other reasons that might have blocked errata creation."
            none

  unfoldable pub run_before_errata_created : FullIssue → Call WorkflowResult
  run_before_errata_created issue =
      if not (any target_label issue.labels)
      then pure
          (resolve_remove_work_item ("Issue without target labels: " <> list_text issue.labels))
      else do
        labelled ←
            if contains issue.labels "ymir_merged"
            then pure (false, issue)
            else label_merge_if_needed services dry_run issue
        if contains labelled.1.labels "ymir_merged"
            then await_erratum labelled.1
            else pure (resolve_wait_for "No merged MR found, reschedule it for 3 hours" (pos 10800))

  unfoldable pub after_analysis :
      FullIssue
      → Erratum
      → Option BaselineTests
      → TestingAnalysis
      → TestingState
      → Call WorkflowResult
  after_analysis issue erratum baseline analysis TestingState.not_running =
      resolve_flag_attention services dry_run issue "Tests aren't running - see details below"
        analysis.comment
  after_analysis issue erratum baseline analysis TestingState.pending =
      pure (resolve_wait "Tests are pending")
  after_analysis issue erratum baseline analysis TestingState.running =
      pure (resolve_wait "Tests are running")
  after_analysis issue erratum baseline analysis TestingState.failed =
      if wants_reproduction analysis.failed_test_ids baseline
      then resolve_start_reproduction services dry_run issue erratum (text_or analysis.comment "")
          (ids_of analysis.failed_test_ids)
      else resolve_flag_attention services dry_run issue "Tests failed - see details below"
          analysis.comment
  after_analysis issue erratum baseline analysis TestingState.error =
      resolve_flag_attention services dry_run issue
        "An error occurred during testing - see details below" analysis.comment
  after_analysis issue erratum baseline analysis TestingState.passed =
      resolve_set_status services dry_run issue IssueStatus.release_pending
        (text_or analysis.comment "Final testing has passed.")
  after_analysis issue erratum baseline analysis TestingState.waived =
      resolve_set_status services dry_run issue IssueStatus.release_pending
        (text_or analysis.comment "Final testing has been waived, moving to Release Pending.")

  -- The part of the case `IssueStatus.INTEGRATION` that follows the check of the erratum.
  unfoldable pub analyse : FullIssue → Erratum → Call WorkflowResult
  analyse issue erratum = do
    let baseline = services.load_baseline issue
    analysis ← ask (λ log. services.analyze_issue log issue erratum (is_some baseline))
    after_analysis issue erratum baseline analysis analysis.state

  -- The case `IssueStatus.INTEGRATION`.
  unfoldable pub in_integration : FullIssue → String → Call WorkflowResult
  in_integration issue link =
      if contains issue.labels "ymir_reproducing_tests"
      then resolve_check_reproduction services dry_run issue
      else do
        related_erratum ← ask (λ log. services.erratum_for_link log link)
        if is_new_files related_erratum.status
            then pure (
                resolve_wait
                  "Erratum is still in NEW_FILES status, waiting for QE testing to begin")
            else analyse issue related_erratum

  unfoldable pub to_integration : FullIssue → Call WorkflowResult
  to_integration issue =
      resolve_set_status services dry_run issue IssueStatus.integration
        "Preliminary testing has passed, moving to Integration"

  unfoldable pub by_status : FullIssue → String → IssueStatus → Call WorkflowResult
  by_status issue link IssueStatus.integration = in_integration issue link
  by_status issue link IssueStatus.new = to_integration issue
  by_status issue link IssueStatus.planning = to_integration issue
  by_status issue link IssueStatus.in_progress = to_integration issue
  by_status issue link IssueStatus.release_pending =
      pure (resolve_remove_work_item "Issue status is Release Pending")
  by_status issue link IssueStatus.closed = pure (resolve_remove_work_item "Issue status is Closed")
  by_status issue link other =
      raise (exn value_error ("Unknown issue status: " <> issue_status_value other))

  unfoldable pub run_after_errata_created : FullIssue → String → Call WorkflowResult
  run_after_errata_created issue link =
      if not (is_some issue.fixed_in_build)
      then resolve_flag_attention services dry_run issue
          "Issue has errata_link but no fixed_in_build" none
      else if not (passed_preliminary issue.preliminary_testing)
      then resolve_flag_attention services dry_run issue
          "Issue does not have Preliminary Testing set to Pass - this should have happened before the gitlab pull request was merged"
          none
      else if not (has_coverage issue.test_coverage)
      then resolve_flag_attention services dry_run issue
          "Issue does not have Test Coverage set - this should have happened before the gitlab pull request was merged"
          none
      else do
        labelled ← label_merge_if_needed services dry_run issue
        by_status labelled.1 link labelled.1.status

  unfoldable pub by_link : FullIssue → Option String → Call WorkflowResult
  by_link issue none = run_before_errata_created issue
  by_link issue (some link) = run_after_errata_created issue link

  unfoldable pub run : FullIssue → Call WorkflowResult
  run issue =
      if contains issue.labels "ymir_needs_attention" && not ignore_needs_attention
      then pure (resolve_remove_work_item "Issue has the ymir_needs_attention label")
      else if not (eqb (length issue.components) 1)
      then resolve_flag_attention services dry_run issue
          "This issue has multiple components. Ymir only handles issues with single component currently."
          none
      else by_link issue issue.errata_link
