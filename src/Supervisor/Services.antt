-- ===== src/Supervisor/Services.antt =====
-- What the supervisor reads from Jira, GitLab, the Errata Tool, Testing Farm, the clock and the
-- testing analyst (an LLM agent): the answers are parameters. An answer may depend on the requests
-- made before it, and may be an exception. Answers are given in the form that the reading code of
-- the program (`decode_issue`, `get_erratum`, the scraping of the rules page, …) hands on.
use ai_workflows.Common.{ℕ, String, Bool, Option, List}
use ai_workflows.Effects.{Result}
use ai_workflows.Supervisor.Types.{
  ErrataStatus, MergeRequestState, MergeRequest, Erratum, Issue, FullIssue, JotnarTag,
  TestingFarmRequestState, TestingState,
}
use ai_workflows.Supervisor.Requests.{Request, Log}

-- An entry of Jira's list of transitions; `fields` maps a field to whether it is required.
pub record Transition : Type 0 where
  pub id : String
  pub to_name : String
  pub fields : List (String × Bool)

pub data TransitionRuleOutcome : Type 0 where
  block ok unknown : TransitionRuleOutcome

pub record TransitionRule : Type 0 where
  pub name : String
  pub outcome : TransitionRuleOutcome
  pub details : String

pub record TransitionRuleSet : Type 0 where
  pub from_status : ErrataStatus
  pub to_status : ErrataStatus
  pub rules : List TransitionRule

pub data ErratumPushStatus : Type 0 where
  queued ready running waiting_on_pub post_push_processing complete failed : ErratumPushStatus

pub record ErratumPushDetails : Type 0 where
  pub status : Option ErratumPushStatus
  pub updated_at : Option ℕ

-- `ErratumPackageFileList`: from variants to architectures to sets of names.
abbrev pub FileList : Type 0
FileList = List (String × List (String × List String))

pub record ErratumBuild : Type 0 where
  pub nvr : String
  pub package_file_list : FileList

pub record TestingFarmRequest : Type 0 where
  pub id : String
  pub state : TestingFarmRequestState
  pub result : String
  pub arches : List String

-- The testing analyst's `OutputSchema`.
pub record TestingAnalysis : Type 0 where
  pub state : TestingState
  pub comment : Option String
  pub failed_test_ids : Option (List String)

-- `RequestWrapper`: an id, and the request once it has been fetched.
pub record RequestWrapper : Type 0 where
  pub id : String
  pub fetched : Option TestingFarmRequest

pub record BaselineComparison : Type 0 where
  pub failed : RequestWrapper
  pub baseline : RequestWrapper

pub record BaselineTests : Type 0 where
  pub failure_comment : String
  pub comparisons : List BaselineComparison
  pub previous_build_nvr : String
  pub comment_id : Option String

pub record Services : Type 0 where
  pub now : Log → ℕ
  -- the outcome of a request that changes something; an exception may leave it done or not
  pub respond : Log → Request → Result (Unit {0})
  pub jira_transitions : Log → String → Result (List Transition)
  pub user_account_id : Log → String → Result String
  pub jira_issue : Log → String → Result FullIssue
  -- the open issues of a project with a tag, and with a label if one is given
  pub tagged_issues : Log → String → JotnarTag → Option String → Result (List Issue)
  pub project_mrs : Log → String → String → Option MergeRequestState → Result (List MergeRequest)
  pub erratum : Log → String → Result Erratum
  -- `get_erratum_for_link`: the erratum whose id ends the link
  pub erratum_for_link : Log → String → Result Erratum
  pub erratum_comments : Log → ℕ → Result (Option (List String))
  pub erratum_build_map : Log → ℕ → Result (List (String × ErratumBuild))
  pub previous_erratum : Log → ℕ → String → Result (Option ℕ)
  pub erratum_build_nvr : Log → ℕ → String → Result (Option String)
  pub transition_rules : Log → ℕ → Result TransitionRuleSet
  pub stage_push_details : Log → ℕ → Result ErratumPushDetails
  -- pydantic's `model_dump_json(indent=2)`
  pub json_of_build : ErratumBuild → String
  pub analyze_issue : Log → FullIssue → Erratum → Bool → Result TestingAnalysis
  pub load_baseline : FullIssue → Option BaselineTests
  pub testing_farm_request : Log → String → Result TestingFarmRequest
  -- the body of a request to repeat a run with another build, and the request that comes back
  -- from Testing Farm, or that a dry run makes up
  pub reproduction_body : TestingFarmRequest → String → Result String
  pub reproduction : Log → TestingFarmRequest → String → Result TestingFarmRequest
  -- pydantic's `str(request)`
  pub show_request : TestingFarmRequest → String
  pub comparison_toml : Log → BaselineComparison → Result String
