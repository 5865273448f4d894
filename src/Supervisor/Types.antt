-- ===== src/Supervisor/Types.antt =====
-- ymir/supervisor/supervisor_types.py, and the constants that the handlers use. Moments are
-- microseconds since `DATETIME_MIN_UTC`, spans are microseconds, as Python's `datetime` keeps them.
use ai_workflows.Common.{ℕ, ◌*◌, String, ◌<>◌, Option, List, [], ◌∷◌}

pub data IssueStatus : Type 0 where
  new planning refinement in_progress integration release_pending done closed : IssueStatus

-- `str(status)`: the value of the `StrEnum` member
unfoldable pub issue_status_value : IssueStatus → String
issue_status_value new = "New"
issue_status_value planning = "Planning"
issue_status_value refinement = "Refinement"
issue_status_value in_progress = "In Progress"
issue_status_value integration = "Integration"
issue_status_value release_pending = "Release Pending"
issue_status_value done = "Done"
issue_status_value closed = "Closed"

pub data TestCoverage : Type 0 where
  manual automated regression_only new_test_coverage : TestCoverage

pub data PreliminaryTesting : Type 0 where
  requested fail pass ready : PreliminaryTesting

pub data ErrataStatus : Type 0 where
  new_files qe rel_prep push_ready in_push dropped_no_ship shipped_live : ErrataStatus

unfoldable pub errata_status_value : ErrataStatus → String
errata_status_value new_files = "NEW_FILES"
errata_status_value qe = "QE"
errata_status_value rel_prep = "REL_PREP"
errata_status_value push_ready = "PUSH_READY"
errata_status_value in_push = "IN_PUSH"
errata_status_value dropped_no_ship = "DROPPED_NO_SHIP"
errata_status_value shipped_live = "SHIPPED_LIVE"

pub ErrataStatus-discrete : Discrete ErrataStatus
ErrataStatus-discrete = hlevel

pub data MergeRequestState : Type 0 where
  opened closed merged : MergeRequestState

pub record MergeRequest : Type 0 where
  pub project : String
  pub iid : ℕ
  pub url : String
  pub title : String
  pub description : String
  pub state : MergeRequestState
  pub merged_at : Option ℕ

pub record Erratum : Type 0 where
  pub id : ℕ
  pub full_advisory : String
  pub url : String
  pub synopsis : String
  pub status : ErrataStatus
  pub jira_issues : List String
  pub release_id : ℕ
  pub publish_date : Option ℕ
  pub last_status_transition_timestamp : ℕ
  pub assigned_to_email : String
  pub package_owner_email : String

pub record JiraComment : Type 0 where
  pub id : String
  pub author_name : String
  pub author_email : Option String
  pub created : ℕ
  pub body : String

-- `Issue`, with the fields of `FullIssue` that a plain `Issue` leaves out at the end.
pub record Issue : Type 0 where
  pub key : String
  pub url : String
  pub assigned_team : Option String
  pub summary : String
  pub components : List String
  pub status : IssueStatus
  pub labels : List String
  pub fix_versions : List String
  pub errata_link : Option String
  pub fixed_in_build : Option String
  pub test_coverage : Option (List TestCoverage)
  pub preliminary_testing : Option PreliminaryTesting

pub record FullIssue : Type 0 where
  pub issue : Issue
  pub open issue use *
  pub description : String
  pub comments : List JiraComment

pub data TestingFarmRequestState : Type 0 where
  new queued running error canceled cancel_requested complete : TestingFarmRequestState

pub data TestingState : Type 0 where
  not_running pending running error failed passed waived : TestingState

-- The delay of a `WorkflowResult`: Python's float, of which the handlers write whole numbers only.
-- `negsuc n` is -(n + 1).
pub data ℤ : Type 0 where
  pos : ℕ → ℤ
  negsuc : ℕ → ℤ

abbrev pub minus_one : ℤ
minus_one = negsuc 0

pub record WorkflowResult : Type 0 where
  pub status : String
  pub reschedule_in : ℤ

-- `JotnarTag`, whose `type` and `resource` admit one value each.
pub record JotnarTag : Type 0 where
  pub id : String

-- `str(tag)`; the ids that the program makes carry no white space that `strip` would remove.
unfoldable pub tag_text : JotnarTag → String
tag_text tag = "::: YMIR needs_attention E: " <> (tag.id <> " :::")

-- `timedelta(seconds=n)`
abbrev pub seconds : ℕ → ℕ
seconds n = n * 1000000

abbrev pub datetime_min_utc : ℕ
datetime_min_utc = 0

abbrev pub gitlab_groups : List String
gitlab_groups = "rhel/rpms" ∷ "centos-stream/rpms" ∷ []

-- `timedelta(hours=3)`
abbrev pub post_push_testing_timeout : ℕ
post_push_testing_timeout = seconds 10800

abbrev pub post_push_testing_timeout_str : String
post_push_testing_timeout_str = "3 hours"

abbrev pub errata_jotnar_bot_email : String
errata_jotnar_bot_email = "jotnar-bot@IPA.REDHAT.COM"

abbrev pub jira_jotnar_bot_email : String
jira_jotnar_bot_email = "jotnar+bot@redhat.com"

abbrev pub jira_jotnar_team : String
jira_jotnar_team = "rhel-jotnar"

-- `WAIT_DELAY`, in seconds
abbrev pub wait_delay : ℕ
wait_delay = 1200
