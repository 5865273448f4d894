-- ===== src/Supervisor/IssueHandler/Resolve.antt =====
-- The `resolve_…` methods of ymir/supervisor/issue_handler.py and work_item_handler.py.
pub mod Traffic
pub mod Outcome
use ai_workflows.Common.{
  String, ◌<>◌, Bool, true, false, Option, none, some, List, [], ◌∷◌, truthy, text_or, not,
  if◌then◌else◌,
}
use ai_workflows.Effects.{
  Result, ok, raised, exn, value_error, index_error, pure, raise, lift, ask, attempt, ◌>>=◌, ◌>>◌,
}
use ai_workflows.Supervisor.Types.{
  IssueStatus, issue_status_value, Erratum, FullIssue, ℤ, pos, minus_one, WorkflowResult,
  wait_delay,
}
use ai_workflows.Supervisor.Requests.{Call}
use ai_workflows.Supervisor.Services.{Services, BaselineTests}
use ai_workflows.Supervisor.Jira.{
  absent, text, change_issue_status, add_issue_label, remove_issue_label, update_issue_comment,
  format_attention_message,
}
use ai_workflows.Supervisor.Baseline.{
  settled, format_issue_comment, create_attachments, create_baseline,
}

abbrev pub resolve_remove_work_item : String → WorkflowResult
resolve_remove_work_item why = record { status = why; reschedule_in = minus_one }

abbrev pub resolve_wait_for : String → ℤ → WorkflowResult
resolve_wait_for why delay = record { status = why; reschedule_in = delay }

abbrev pub resolve_wait : String → WorkflowResult
resolve_wait why = resolve_wait_for why (pos wait_delay)

-- `components[0]`
unfoldable pub first_component : FullIssue → Result String
first_component issue = elim issue.components [
  | [] ↦ raised (exn index_error "list index out of range")
  | c ∷ cs ↦ ok c
]

-- `-1 if status in (RELEASE_PENDING, CLOSED) else 0`
unfoldable pub status_delay : IssueStatus → ℤ
status_delay IssueStatus.release_pending = minus_one
status_delay IssueStatus.closed = minus_one
status_delay _ = pos 0

module _ (services : Services) (dry_run : Bool) where
  unfoldable pub resolve_set_status : FullIssue → IssueStatus → String → Call WorkflowResult
  unfolding status_delay
  resolve_set_status issue status why =
      change_issue_status services dry_run issue.key status (
        text (
          "*Changing status from "
          <> (issue_status_value issue.status
              <> (" => " <> (issue_status_value status <> ("*\n\n" <> why))))))
      >> pure (record { status = why; reschedule_in = status_delay status })

  attention_comment : String → Option String → String
  attention_comment why details =
      if truthy details
      then format_attention_message why <> ("\n\n" <> text_or details "")
      else format_attention_message why

  unfoldable pub resolve_flag_attention : FullIssue → String → Option String → Call WorkflowResult
  unfolding attention_comment
  resolve_flag_attention issue why details =
      add_issue_label services dry_run issue.key "ymir_needs_attention"
        (text (attention_comment why details))
      >> pure (record { status = why; reschedule_in = minus_one })

  reproduction_error : FullIssue → String → String → Call WorkflowResult
  reproduction_error issue comment message =
      resolve_flag_attention issue ("Tests failed - see details below. " <> message) (some comment)

  -- What follows the attempt to start the baseline tests.
  started : FullIssue → String → Result BaselineTests → Call WorkflowResult
  unfolding reproduction_error
  started issue comment (raised e) = reproduction_error issue comment e.message
  started issue comment (ok tests) = do
    issue_comment ← format_issue_comment services false tests
    add_issue_label services dry_run issue.key "ymir_reproducing_tests" (text issue_comment)
    pure (resolve_wait "Waiting to reproduce tests with previous build")

  start_with : FullIssue → String → List String → Option String → Call WorkflowResult
  unfolding started reproduction_error
  start_with issue comment failed_test_ids none =
      reproduction_error issue comment
        "Cannot start reproduction with previous build - error finding previous build NVR."
  start_with issue comment failed_test_ids (some nvr) = do
    outcome ← attempt (create_baseline services dry_run comment failed_test_ids nvr)
    started issue comment outcome

  start_unless_linked :
      FullIssue → Erratum → String → List String → Option String → Call WorkflowResult
  unfolding start_with first_component
  start_unless_linked issue related_erratum comment failed_test_ids none =
      raise (exn value_error "errata_link must be set before resolve_start_reproduction")
  start_unless_linked issue related_erratum comment failed_test_ids (some link) = do
    component ← lift (first_component issue)
    previous_build_nvr ← ask (λ log. services.erratum_build_nvr log related_erratum.id component)
    start_with issue comment failed_test_ids previous_build_nvr

  unfoldable pub resolve_start_reproduction :
      FullIssue → Erratum → String → List String → Call WorkflowResult
  unfolding start_unless_linked
  resolve_start_reproduction issue related_erratum comment failed_test_ids =
      start_unless_linked issue related_erratum comment failed_test_ids issue.errata_link

  write_back : FullIssue → String → Option String → Call WorkflowResult
  write_back issue issue_comment none =
      raise (exn value_error "baseline_tests.comment_id must be set by load_from_issue")
  write_back issue issue_comment (some comment_id) =
      update_issue_comment services dry_run issue.key comment_id (text issue_comment)
      >> pure (record {
        status = "Baseline tests are complete, will analyze results";
        reschedule_in = pos 0;
      })

  check_loaded : FullIssue → Option BaselineTests → Call WorkflowResult
  unfolding write_back
  check_loaded issue none =
      resolve_flag_attention issue
        "Issue has ymir_reproducing_tests label but cannot parse baseline tests from comments" none
  check_loaded issue (some tests) = do
    all_settled ← settled services tests
    if not all_settled then pure (resolve_wait "Waiting for baseline tests to complete") else do
      tests' ← create_attachments services dry_run issue.key tests
      issue_comment ← format_issue_comment services true tests'
      remove_issue_label services dry_run issue.key "ymir_reproducing_tests" absent
      write_back issue issue_comment tests'.comment_id

  unfoldable pub resolve_check_reproduction : FullIssue → Call WorkflowResult
  unfolding check_loaded
  resolve_check_reproduction issue = check_loaded issue (services.load_baseline issue)
