-- ===== src/Examples/StrategySteps.antt =====
-- The strategies of the sweeps, and the buildroots that one of them asks for.
use ai_workflows.Common.{
  List, ℕ, String, ◌<>◌, true, Option, none, some, [], ◌∷◌, ◌≡◌, ◌↔◌, refl, leb, Some,
}
use ai_workflows.Effects.{Result, ok}
use ai_workflows.Versions.{RhelConfig, parse_rhel_version, construct_internal_branch_name}
use ai_workflows.Buildroot.{
  Build, Koji, brewhub_url, centos_stream_kojihub_url, resolve_buildroot_checks,
  check_build_in_buildroot,
}
use ai_workflows.Buildroot.Checks.{InAll, check_build_in_buildroot-InAll}
use ai_workflows.Supervisor.Types.{Issue, FullIssue, IssueStatus, negsuc}
use ai_workflows.Supervisor.Requests.{Log}
use ai_workflows.Sweep.{SweepState, CommentData, run_sweep}
use ai_workflows.Sweep.Deserved.{Grown}
use ai_workflows.Sweep.Dependency.{
  is_jira_key, branch_from_summary, branch_from_fix_versions, is_unblocked as is_landed,
}
use ai_workflows.Sweep.Dependency.InBuildroot.{Deserved, dependency_sweep-Deserved}
use ai_workflows.Sweep.PrPending.{
  Forges, match_gitlab, match_github, urlquote, is_unblocked as is_merged,
}
use ai_workflows.Sweep.PrPending.Merged.{Reports, Told, is_unblocked-Told}
use ai_workflows.Sweep.NoPatch.{up_to}
use ai_workflows.Examples.Services.{services, full_issue, issue_in}

-- Version 9 has both streams, version 8 is in maintenance.
abbrev config : RhelConfig
config = record {
  current_y_streams = ("9", "rhel-9.8") ∷ [];
  current_z_streams = ("9", "rhel-9.7.z") ∷ ("8", "rhel-8.10.z") ∷ [];
}

-- Every tag has a build with a greater epoch.
abbrev build_of : Option ℕ → Build
build_of epoch = record { epoch = epoch; version = "5.1"; release = "2.el9" }

abbrev koji : Koji
koji = record {
  get_build = λ url nvr. ok (some (build_of none));
  list_tagged = λ url tag name. ok (build_of (some 1) ∷ []);
  at_least = λ latest fixed. leb fixed.epoch latest.epoch;
}

newer_build :
    check_build_in_buildroot koji (ok config) "c9s" "bash" "bash-5.1-2.el9" "rhel-9.7.z" ≡ ok true
unfolding check_build_in_buildroot resolve_buildroot_checks parse_rhel_version
    construct_internal_branch_name
newer_build = refl

both_tags :
    resolve_buildroot_checks "c9s" "rhel-9.7.z" config
    ≡ (centos_stream_kojihub_url, "c9s-build") ∷ (brewhub_url, "rhel-9.7.0-z-build") ∷ []
unfolding resolve_buildroot_checks parse_rhel_version construct_internal_branch_name
both_tags = refl

one_tag :
    resolve_buildroot_checks "c8s" "rhel-8.10.0.z" config
    ≡ (brewhub_url, "rhel-8.10.0-z-build") ∷ []
unfolding resolve_buildroot_checks parse_rhel_version construct_internal_branch_name
one_tag = refl

check_build_in_buildroot-InAll_example :
    (check_build_in_buildroot koji (ok config) "c9s" "bash" "bash-5.1-2.el9" "rhel-9.7.z" ≡ ok true)
    ↔ InAll koji "bash" "bash-5.1-2.el9" (resolve_buildroot_checks "c9s" "rhel-9.7.z" config)
check_build_in_buildroot-InAll_example =
    check_build_in_buildroot-InAll koji config "c9s" "bash" "bash-5.1-2.el9" "rhel-9.7.z"

abbrev comment : CommentData
comment = record {
  blocker_references = some ("RHEL-2" ∷ []);
  pending_issues = [];
  summary = some "waiting for bash to land in c9s buildroot";
  comment_id = "7";
}

key_matches : is_jira_key "RHEL-2" ≡ true
key_matches = refl

branch_found : branch_from_summary "waiting for bash to land in c9s buildroot" ≡ some "c9s"
branch_found = refl

branch_of_versions : branch_from_fix_versions ("eln" ∷ "rhel-9.6" ∷ []) ≡ some "c9s"
unfolding parse_rhel_version
branch_of_versions = refl

abbrev parsed : FullIssue → Result (Option CommentData)
parsed issue = ok (some comment)

abbrev found : Log → String → Result Issue
found log key = ok (issue_in IssueStatus.integration)

abbrev pushing : SweepState → Result (Unit {0})
pushing s = ok tt

abbrev task_json : String → String
task_json key = "task " <> key

dependency_sweep-Deserved_example :
    Grown
      (λ entry. Some (Deserved koji config found parsed task_json entry) (full_issue ∷ []))
      []
      (run_sweep services "ymir_postponed_dependency" pushing task_json parsed
        (is_landed koji (ok config) found)
        (λ _. ok (full_issue ∷ []))
        ([], [])).1.0
dependency_sweep-Deserved_example =
    dependency_sweep-Deserved koji config found parsed task_json services
      "ymir_postponed_dependency" pushing (full_issue ∷ []) [] []

abbrev forges : Forges
forges = record {
  gitlab_api_get = λ log path url. ok "opened";
  github_api_get = λ log path. ok (record { state = "closed"; merged_at = none });
}

abbrev pull_request : CommentData
pull_request = record comment {
  blocker_references = some ("https://github.com/gnu/bash/pull/17" ∷ []);
}

gitlab_groups :
    match_gitlab "https://gitlab.com/a/b/-/merge_requests/12#note"
    ≡ some ("gitlab.com", ("a/b", "12"))
gitlab_groups = refl

other_host : match_gitlab "https://gitlab.com.evil/a/b/-/merge_requests/12" ≡ none
other_host = refl

github_groups : match_github "https://github.com/gnu/bash/pull/17/files" ≡ some ("gnu/bash", "17")
github_groups = refl

quoted : urlquote "a/b c" ≡ "a%2Fb%20c"
quoted = refl

is_unblocked-Told_example :
    Told services "ymir_postponed_pr_pending" forges full_issue []
      (Reports forges [] "https://github.com/gnu/bash/pull/17")
      "https://github.com/gnu/bash/pull/17"
      (is_merged services "ymir_postponed_pr_pending" forges full_issue pull_request []).0
      (is_merged services "ymir_postponed_pr_pending" forges full_issue pull_request []).1
is_unblocked-Told_example =
    is_unblocked-Told services "ymir_postponed_pr_pending" forges full_issue [] pull_request

all_but_one : up_to (negsuc 0) (full_issue ∷ full_issue ∷ []) ≡ full_issue ∷ []
all_but_one = refl

abbrev two_postponed : Log → Result (List FullIssue)
two_postponed log = ok (full_issue ∷ full_issue ∷ [])
