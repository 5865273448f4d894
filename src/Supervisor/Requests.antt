-- ===== src/Supervisor/Requests.antt =====
-- The requests that change something at a service: one constructor for each method and address
-- that the supervisor calls (`jira_api_put`, `jira_api_post`, `jira_api_upload`, `ET_api_post`,
-- `ET_api_put`, `testing_farm_api_post`), with the parts of the body that vary. The quoting of a
-- key in the address is left out. A log holds the requests made so far, the last one first.
use ai_workflows.Common.{ℕ, String, Option, List}
use ai_workflows.Effects.{Act}
use ai_workflows.Supervisor.Types.{ErrataStatus}

-- An entry of `update.labels`.
pub data LabelUpdate : Type 0 where
  add remove : String → LabelUpdate

-- `visibility` is the group that may read the comment; `none` stands for a public one.
pub record CommentBody : Type 0 where
  pub body : String
  pub visibility : Option String

pub record IssueFields : Type 0 where
  pub project : String
  pub summary : String
  pub description : String
  pub assignee : Option String
  pub reporter : Option String
  pub components : List String
  pub fix_versions : List String
  pub labels : List String

pub data Request : Type 0 where
  -- PUT issue/{key}
  put_issue : String → LabelUpdate → Option CommentBody → Request
  -- POST issue/{key}/comment, PUT issue/{key}/comment/{id}
  post_comment : String → CommentBody → Request
  put_comment : String → String → CommentBody → Request
  -- POST issue/{key}/transitions, with the transition's id
  post_transition : String → String → Option CommentBody → Request
  -- POST issue/{key}/attachments
  upload : String → List (String × String) → Request
  -- POST issue
  post_issue : IssueFields → Request
  -- POST erratum/{id}/push, /security_alerts/refresh, /change_state, /add_comment
  post_push post_refresh : ℕ → Request
  post_change_state : ℕ → ErrataStatus → Request
  post_erratum_comment : ℕ → String → Request
  -- PUT erratum/{id}, with the new assignee and package owner
  put_owner : ℕ → String → Request
  -- POST requests at Testing Farm: the request to repeat, and the build to install
  post_reproduction : String → String → Request

abbrev pub Log : Type 0
Log = List Request

abbrev pub Call : Type 0 → Type 0
Call A = Act Log A
