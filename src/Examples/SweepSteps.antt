-- ===== src/Examples/SweepSteps.antt =====
-- A sweep over two issues, of which the first is unblocked.
use ai_workflows.Common.{◌≡◌, ◌⊎◌, String, ◌<>◌, Option, none, some, List, [], ◌∷◌}
use ai_workflows.Effects.{Exn, Result, ok, raised, exn, ExnKind}
use ai_workflows.Supervisor.Types.{FullIssue}
use ai_workflows.Supervisor.Requests.{Log, Call, add, remove, put_issue}
use ai_workflows.Supervisor.Jira.{text, comment_to_dict}
use ai_workflows.Sweep.{
  SweepAction, SweepResult, CommentData, SweepState, on_unblock, on_transition, run_sweep,
}
use ai_workflows.Sweep.Unblock.{
  Unblocked, on_unblock-Unblocked, new_label_added, on_transition-adds_first,
}
use ai_workflows.Sweep.Summary.{SummaryMeaning, run_sweep-SummaryMeaning}
use ai_workflows.Examples.Services.{services, full_issue}

abbrev pushing : SweepState → Result (Unit {0})
pushing (q, log) = ok tt

abbrev task_json : String → String
task_json key = "task " <> key

abbrev comment_of : FullIssue → Result (Option CommentData)
comment_of issue = ok (
    some (record {
      blocker_references = some ("RHEL-2" ∷ []);
      pending_issues = [];
      summary = none;
      comment_id = "7";
    }))

-- Unblocked as long as nothing has been requested.
abbrev verdict : FullIssue → CommentData → Call SweepResult
verdict issue comment_data [] =
    (ok (record { issue_key = issue.key; action = SweepAction.unblocked; detail = "done" }), [])
verdict issue comment_data (r ∷ log) = (raised (exn ExnKind.other "no answer"), r ∷ log)

abbrev two_issues : Log → Result (List FullIssue)
two_issues log = ok (full_issue ∷ full_issue ∷ [])

on_unblock-Unblocked_example :
    Unblocked services "ymir_postponed" "RHEL-1"
      (text "done")
      pushing
      task_json
      []
      []
      (on_unblock services "ymir_postponed" pushing task_json "RHEL-1" (text "done") ([], []))
on_unblock-Unblocked_example =
    on_unblock-Unblocked services "ymir_postponed" "RHEL-1" (text "done") pushing task_json [] []

run_sweep-SummaryMeaning_example :
    SummaryMeaning services "ymir_postponed" pushing task_json comment_of verdict two_issues [] []
      (run_sweep services "ymir_postponed" pushing task_json comment_of verdict two_issues ([], []))
run_sweep-SummaryMeaning_example =
    run_sweep-SummaryMeaning services "ymir_postponed" pushing task_json comment_of verdict
      two_issues [] []

on_transition-adds_first_example :
    (((e : Exn) × (services.respond []
          (put_issue "RHEL-1" (add "ymir_no_patch") (comment_to_dict (text "closed")))
        ≡ raised e)
      × (on_transition services "ymir_pr_pending" "RHEL-1" "ymir_no_patch" (text "closed") [] ≡ (
        raised e,
        new_label_added services "ymir_pr_pending" "RHEL-1" "ymir_no_patch" (text "closed") [],
      ))))
    ⊎ (on_transition services "ymir_pr_pending" "RHEL-1" "ymir_no_patch" (text "closed") [] ≡ (
      services.respond
          (new_label_added services "ymir_pr_pending" "RHEL-1" "ymir_no_patch" (text "closed") [])
          (put_issue "RHEL-1" (remove "ymir_pr_pending") none),
      put_issue "RHEL-1" (remove "ymir_pr_pending") none
          ∷ new_label_added services "ymir_pr_pending" "RHEL-1" "ymir_no_patch" (text "closed") [],
    ))
on_transition-adds_first_example =
    on_transition-adds_first services "ymir_pr_pending" "RHEL-1" "ymir_no_patch" (text "closed") []
