-- ===== src/Sweep/YStream.antt =====
-- ymir/sweep/y_stream.py: a vulnerability of a Y-stream that waits for its Z-streams. The tool that
-- tells whether it may be triaged is a parameter, with the model that its output is read into.
use ai_workflows.Common.{String, ◌<>◌, Option, text_or, ◌==◌, if◌then◌else◌}
use ai_workflows.Effects.{Result, ok, raised}
use ai_workflows.Supervisor.Types.{FullIssue}
use ai_workflows.Supervisor.Requests.{Log, Call}
use ai_workflows.Sweep.{SweepAction, SweepResult, CommentData}
use ai_workflows.Sweep.Dependency.{result_of}

pub data TriageEligibility : Type 0 where
  immediately pending_dependencies never : TriageEligibility

-- What is read of the result here.
pub record CveEligibilityResult : Type 0 where
  pub eligibility : TriageEligibility
  pub reason : String
  pub error : Option String

abbrev pub eligibility_value : TriageEligibility → String
eligibility_value TriageEligibility.immediately = "immediately"
eligibility_value TriageEligibility.pending_dependencies = "pending-dependencies"
eligibility_value TriageEligibility.never = "never"

abbrev pub by_eligibility : FullIssue → String → TriageEligibility → SweepResult
by_eligibility issue reason TriageEligibility.pending_dependencies =
    result_of issue SweepAction.still_blocked reason
by_eligibility issue reason eligibility = result_of issue SweepAction.unblocked (
    "No longer PENDING_DEPENDENCIES ("
    <> (eligibility_value eligibility <> ("): " <> (reason <> ". Re-triaging."))))

abbrev pub verdict_of : FullIssue → CveEligibilityResult → SweepResult
verdict_of issue result =
    let error = text_or result.error "" in
    if error == ""
    then by_eligibility issue result.reason result.eligibility
    else result_of issue SweepAction.error
        ("Eligibility error for " <> (issue.key <> (": " <> error)))

abbrev pub of_validated : FullIssue → Result CveEligibilityResult → Call SweepResult
of_validated issue (raised e) log = (raised e, log)
of_validated issue (ok result) log = (ok (verdict_of issue result), log)

module _ {Output : Type 0} (check : Log → String → Result Output)
    (model_validate : Output → Result CveEligibilityResult) where
  abbrev pub of_output : FullIssue → Result Output → Call SweepResult
  of_output issue (raised e) log = (
    ok (
        result_of issue SweepAction.error
          ("Eligibility check failed for " <> (issue.key <> (": " <> e.message)))),
    log,
  )
  of_output issue (ok output) log = of_validated issue (model_validate output) log

  unfoldable pub is_unblocked : FullIssue → CommentData → Call SweepResult
  is_unblocked issue comment_data log = of_output issue (check log issue.key) log
