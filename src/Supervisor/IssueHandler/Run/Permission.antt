-- ===== src/Supervisor/IssueHandler/Run/Permission.antt =====
-- When a step of an issue may change the issue's status.
use ai_workflows.Common.{◌≡◌, ◌⊎◌, true, false, is_some}
use ai_workflows.Effects.{ok}
use ai_workflows.Supervisor.Types.{IssueStatus, Erratum, FullIssue, TestingState}
use ai_workflows.Supervisor.Requests.{Log}
use ai_workflows.Supervisor.Services.{Services, TestingAnalysis}
use ai_workflows.Supervisor.IssueHandler.Run
use ai_workflows.Common.{Bool}

-- The analyst found, of some erratum that has left NEW_FILES, that the tests passed or that their
-- failures are waived.
pub record TestsAccepted (services : Services) : Type 0 where
  pub log : Log
  pub issue : FullIssue
  pub erratum : Erratum
  pub after_baseline : Bool
  pub analysis : TestingAnalysis
  pub answered : services.analyze_issue log issue erratum after_baseline ≡ ok analysis
  pub accepted : (analysis.state ≡ TestingState.passed) ⊎ (analysis.state ≡ TestingState.waived)
  pub out_of_new_files : Run.is_new_files erratum.status ≡ false

-- An early status, from which a step moves on to Integration.
abbrev pub IsEarly : IssueStatus → Type 0
IsEarly s = (s ≡ IssueStatus.new) ⊎ (s ≡ IssueStatus.planning) ⊎ (s ≡ IssueStatus.in_progress)

-- When a step may change the status.
pub record MayMove (services : Services) (issue : FullIssue) : Type 0 where
  pub linked : is_some issue.errata_link ≡ true
  pub built : is_some issue.fixed_in_build ≡ true
  pub tested : Run.passed_preliminary issue.preliminary_testing ≡ true
  pub covered : Run.has_coverage issue.test_coverage ≡ true
  pub due :
      IsEarly issue.status ⊎ ((issue.status ≡ IssueStatus.integration) × TestsAccepted services)
