-- ===== src/Supervisor/ErratumHandler/Resolve.antt =====
-- The `resolve_…` methods of ymir/supervisor/erratum_handler.py.
use ai_workflows.Common.{
  ℕ, ◌-◌, String, ◌<>◌, Bool, true, false, Option, none, some, [], ◌∷◌, to_str, ltb, if◌then◌else◌,
}
use ai_workflows.Effects.{ok, pure, ask, ◌>>=◌, ◌>>◌}
use ai_workflows.Supervisor.Types.{
  ErrataStatus, errata_status_value, Erratum, Issue, ℤ, pos, minus_one, WorkflowResult,
  post_push_testing_timeout, post_push_testing_timeout_str, jira_jotnar_bot_email,
}
use ai_workflows.Supervisor.Requests.{Call}
use ai_workflows.Supervisor.Services.{Services, ErratumPushStatus}
use ai_workflows.Supervisor.Jira.{text, add_issue_label, create_issue, get_issue_by_jotnar_tag}
use ai_workflows.Supervisor.Errata.{erratum_change_state}
use ai_workflows.Supervisor.IssueHandler.Resolve.{resolve_wait}
use ai_workflows.Supervisor.ErratumHandler.Lists.{needs_attention_tag}

unfoldable pub push_status_value : ErratumPushStatus → String
push_status_value ErratumPushStatus.queued = "QUEUED"
push_status_value ErratumPushStatus.ready = "READY"
push_status_value ErratumPushStatus.running = "RUNNING"
push_status_value ErratumPushStatus.waiting_on_pub = "WAITING_ON_PUB"
push_status_value ErratumPushStatus.post_push_processing = "POST_PUSH_PROCESSING"
push_status_value ErratumPushStatus.complete = "COMPLETE"
push_status_value ErratumPushStatus.failed = "FAILED"

-- `str(status)`, where a push may be missing
unfoldable pub push_status_text : Option ErratumPushStatus → String
push_status_text none = "None"
push_status_text (some s) = push_status_value s

abbrev pub push_complete : Option ErratumPushStatus → Bool
push_complete (some ErratumPushStatus.complete) = true
push_complete _ = false

-- `0 if status in (NEW_FILES, QE) else -1`
unfoldable pub state_delay : ErrataStatus → ℤ
state_delay ErrataStatus.new_files = pos 0
state_delay ErrataStatus.qe = pos 0
state_delay _ = minus_one

module _ (services : Services) (dry_run : Bool) (erratum : Erratum) where
  -- The issue that tracks human work for the erratum gets the label, or is created with it.
  unfoldable pub flag_issue : String → Option Issue → Call (Unit {0})
  flag_issue why (some issue) =
      add_issue_label services dry_run issue.key "ymir_needs_attention" (text why)
  flag_issue why none =
      create_issue services dry_run "RHELMISC"
        (erratum.full_advisory <> (" (" <> (erratum.synopsis <> ") needs attention")))
        ("Erratum: " <> (erratum.url <> ("\n\n" <> why))) (some (needs_attention_tag erratum.id))
        (some jira_jotnar_bot_email) (some jira_jotnar_bot_email) ("jotnar-package-automation" ∷ [])
        [] ("ymir_needs_attention" ∷ [])

  unfoldable pub resolve_flag_attention : String → Call WorkflowResult
  resolve_flag_attention why = do
    issue ← get_issue_by_jotnar_tag services "RHELMISC" (needs_attention_tag erratum.id) none
    flag_issue why issue
    pure (record { status = why; reschedule_in = minus_one })

  unfoldable pub resolve_set_status : ErrataStatus → String → Call WorkflowResult
  resolve_set_status status why =
      erratum_change_state services dry_run erratum.id status
      >> pure (record { status = why; reschedule_in = state_delay status })

  -- The timeout, counted from the end of a push that is complete.
  unfoldable pub after_push : ErrataStatus → Option ℕ → Call WorkflowResult
  after_push new_status none =
      resolve_flag_attention
        "Cannot determine stage push completion time (no log timestamps available)."
  after_push new_status (some updated_at) = do
    cur_time ← ask (λ log. ok (services.now log))
    if ltb post_push_testing_timeout (cur_time - updated_at)
        then resolve_flag_attention
            ("CAT tests didn't complete successfully after " <> post_push_testing_timeout_str)
        else pure (
            resolve_wait (
              "Stage push completed for erratum "
              <> (to_str erratum.id
                  <> (", waiting for CAT tests to complete before moving to "
                      <> errata_status_value new_status))))

  unfoldable pub resolve_wait_for_cat_tests : ErrataStatus → Call WorkflowResult
  resolve_wait_for_cat_tests new_status = do
    push ← ask (λ log. services.stage_push_details log erratum.id)
    if push_complete push.status
        then after_push new_status push.updated_at
        else pure (
            resolve_wait (
              "Stage push status is "
              <> (push_status_text push.status
                  <> (" for erratum "
                      <> (to_str erratum.id
                          <> (", waiting for push to complete before moving to "
                              <> errata_status_value new_status))))))
