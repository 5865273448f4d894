-- ===== src/Examples/Services.antt =====
-- Services for an issue whose tests passed and for an erratum that may go to QE.
use ai_workflows.Common.{false, String, none, some, [], ◌∷◌}
use ai_workflows.Effects.{ok, raised, exn, http_error}
use ai_workflows.Supervisor.Types.{
  IssueStatus, PreliminaryTesting, TestCoverage, ErrataStatus, Erratum, Issue, FullIssue,
  TestingState, errata_jotnar_bot_email, seconds,
}
use ai_workflows.Supervisor.Services.{
  Transition, Services, TransitionRuleOutcome, ErratumPushStatus,
}

abbrev pub issue_in : IssueStatus → Issue
issue_in status = record {
  key = "RHEL-1";
  url = "https://redhat.atlassian.net/browse/RHEL-1";
  assigned_team = some "rhel-jotnar";
  summary = "a fix";
  components = "bash" ∷ [];
  status = status;
  labels = "ymir_merged" ∷ [];
  fix_versions = "rhel-9.6" ∷ [];
  errata_link = some "https://errata.engineering.redhat.com/advisory/7";
  fixed_in_build = some "bash-5.1-2.el9";
  test_coverage = some (TestCoverage.automated ∷ []);
  preliminary_testing = some PreliminaryTesting.pass;
}

abbrev pub full_issue : FullIssue
full_issue = record { issue = issue_in IssueStatus.integration; description = ""; comments = [] }

abbrev pub erratum_of : ErrataStatus → String → Erratum
erratum_of status owner = record {
  id = 7;
  full_advisory = "RHBA-2025:7-01";
  url = "https://errata.engineering.redhat.com/advisory/7";
  synopsis = "bash bug fix";
  status = status;
  jira_issues = "RHEL-1" ∷ [];
  release_id = 1;
  publish_date = none;
  last_status_transition_timestamp = 0;
  assigned_to_email = owner;
  package_owner_email = owner;
}

abbrev pub own_erratum : Erratum
own_erratum = erratum_of ErrataStatus.new_files errata_jotnar_bot_email

abbrev pub foreign_erratum : Erratum
foreign_erratum = erratum_of ErrataStatus.new_files "someone@redhat.com"

-- One moment for everything; Jira offers one transition, and the analyst finds the tests passed.
abbrev pub services_with : Transition → Services
services_with transition = record {
  now = λ log. seconds 1000;
  respond = λ log r. ok tt;
  jira_transitions = λ log key. ok (transition ∷ []);
  user_account_id = λ log email. ok "id";
  jira_issue = λ log key. ok full_issue;
  tagged_issues = λ log project tag label. ok [];
  project_mrs = λ log project component state. ok [];
  erratum = λ log id. ok own_erratum;
  erratum_for_link = λ log link. ok (erratum_of ErrataStatus.qe errata_jotnar_bot_email);
  erratum_comments = λ log id. ok none;
  erratum_build_map = λ log id. ok [];
  previous_erratum = λ log id name. ok none;
  erratum_build_nvr = λ log id name. ok none;
  transition_rules = λ log id. ok (record {
    from_status = ErrataStatus.new_files;
    to_status = ErrataStatus.qe;
    rules = record { name = "Stagepush"; outcome = TransitionRuleOutcome.ok; details = "" } ∷ [];
  });
  stage_push_details =
      λ log id. ok (record { status = some ErratumPushStatus.complete; updated_at = none });
  json_of_build = λ b. b.nvr;
  analyze_issue = λ log i e after_baseline.
      ok (record {
        state = TestingState.passed;
        comment = some "all passed";
        failed_test_ids = none;
      });
  load_baseline = λ i. none;
  testing_farm_request = λ log id. raised (exn http_error id);
  reproduction_body = λ r nvr. ok nvr;
  reproduction = λ log r nvr. ok r;
  show_request = λ r. r.id;
  comparison_toml = λ log c. ok "";
}

abbrev pub plain : Transition
plain = record { id = "31"; to_name = "Release Pending"; fields = [] }

-- A transition to Release Pending that takes a comment.
abbrev pub with_comment : Transition
with_comment = record { id = "31"; to_name = "Release Pending"; fields = ("comment", false) ∷ [] }

abbrev pub services : Services
services = services_with plain

abbrev pub offering : Services
offering = services_with with_comment
