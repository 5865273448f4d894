-- ===== src/Supervisor/IssueHandler/Run/Safety.antt =====
-- A step of an issue: the requests that it may make, and the dry run.
use ai_workflows.Common.{String, Bool, true, Option, ◌≡◌, refl}
use ai_workflows.Supervisor.Types.{FullIssue}
use ai_workflows.Supervisor.Requests.{CommentBody, Request, post_transition, Log}
use ai_workflows.Supervisor.Services.{Services}
use ai_workflows.Supervisor.Jira.Traffic.{Plain}
use ai_workflows.Supervisor.Jira.DryRun.{
  Extends, Extends-refl, Preserves-send_dry, Preserves-send-Extends,
}
use ai_workflows.Supervisor.IssueHandler.Run.{run}
use ai_workflows.Supervisor.IssueHandler.Run.Permission.{MayMove}
use ai_workflows.Supervisor.IssueHandler.Run.Traffic.{keeps-run}

-- What a step may ask for: labels, comments and attachments of its own issue, repeated test runs,
-- and a new status of its own issue where that is permitted.
pub data StepRequest (services : Services) (issue : FullIssue) : Request → Type 0 where
  plain : {r : Request} → Plain issue.key r → StepRequest services issue r
  moved :
      (id : String) (c : Option CommentBody)
      → MayMove services issue
      → StepRequest services issue (post_transition issue.key id c)

-- Whatever the services answer, a step of an issue only adds requests to the log. Each is about
-- its own issue or repeats a test run, and one that changes the status is made only for an issue
-- with an errata link, a fixed build, passed preliminary testing and test coverage, that is in an
-- early status, or in Integration with tests that the analyst found passed or waived for an
-- erratum that has left NEW_FILES.
pub run-StepRequest :
    (services : Services) (dry_run ignore : Bool) (issue : FullIssue) (log : Log)
    → Extends (StepRequest services issue) log (run services dry_run ignore issue log).1
run-StepRequest services dry_run ignore issue log =
    (keeps-run services dry_run ignore issue
        (λ r p. Preserves-send-Extends services _ log dry_run r (plain p))
        (λ may id c. Preserves-send-Extends services _ log dry_run _ (moved id c may))).run_keeps
      log (Extends-refl _ log)

-- In a dry run a step of an issue makes no request that changes anything, whatever the services
-- answer and whether it returns or raises.
pub run-dry_run :
    (services : Services) (ignore : Bool) (issue : FullIssue) (log : Log)
    → (run services true ignore issue log).1 ≡ log
run-dry_run services ignore issue log =
    (keeps-run services true ignore {P = λ l. l ≡ log} issue (λ r p. Preserves-send_dry services r)
        (λ may id c. Preserves-send_dry services _)).run_keeps
      log refl
