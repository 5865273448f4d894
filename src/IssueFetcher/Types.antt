-- ===== src/IssueFetcher/Types.antt =====
-- What the fetcher reads, writes and is configured with. Moments and spans are microseconds.
use ai_workflows.Common.{ℕ, String, Bool, true, false, Option, List, ◌∷◌, if◌then◌else◌}
use ai_workflows.Effects.{Result, ok, raised, Exn, ExnKind, Act}

-- An issue as the search gives it. The key has been put in upper case; `updated` is none when
-- it is missing or is no date.
pub record FoundIssue : Type 0 where
  pub key : String
  pub labels : List String
  pub components : List (Option String)
  pub downstream_component : Option String
  pub fix_versions : List String
  pub updated : Option ℕ

-- The environment's variables that matter here.
pub record Settings : Type 0 where
  pub max_issues : Option ℕ
  pub queue_depth_threshold : Option ℕ
  pub stale_label_threshold : ℕ
  pub dry_run : Bool
  pub skip_modular : Bool

-- What the fetcher changes, the last change first: the labels of an issue, by one request that
-- adds and removes; a comment for Red Hat employees; a task of an issue in a queue.
pub data Event : Type 0 where
  edit_labels : String → List String → List String → Event
  post_comment : String → String → Event
  enqueue : String → String → Bool → Event

abbrev pub Events : Type 0
Events = List Event

abbrev pub Do : Type 0 → Type 0
Do A = Act Events A

-- An entry of the changelog: when it was made, its items (a field, and its texts before and after)
-- and its author.
pub record History : Type 0 where
  pub created : String
  pub items : List (String × (String × String))
  pub author : Option String

-- The answers of Jira, of Redis and of the clock. `respond` is the outcome of a request after its
-- retries, and `status_code` the status that an HTTPError carries.
pub record Services : Type 0 where
  pub now : Events → ℕ
  pub respond : Events → Event → Result (Unit {0})
  pub changelog : Events → String → Result (List History)
  pub user_groups : Events → String → Result (List (Option String))
  pub status_code : Exn → Option ℕ

-- `requests.RequestException`: an HTTPError, or the failure of a connection.
abbrev pub is_request_exception : Exn → Bool
is_request_exception e = elim e.kind [
  | ExnKind.http_error ↦ true
  | ExnKind.os_error ↦ true
  | _ ↦ false
]

-- A change is recorded whether it is answered or refused.
unfoldable pub request : Services → Event → Do (Unit {0})
request services event log = (services.respond log event, event ∷ log)

-- `_edit_jira_labels` and `_post_jira_comment`, after the retries
unfoldable pub edit_jira_labels : Services → String → List String → List String → Do (Unit {0})
unfolding request
edit_jira_labels services key add remove = request services (edit_labels key add remove)

unfoldable pub post_jira_comment : Services → String → String → Do (Unit {0})
unfolding request
post_jira_comment services key comment = request services (post_comment key comment)

abbrev pub went_through : Result (Unit {0}) × Events → Bool × Events
went_through (ok u, log) = (true, log)
went_through (raised e, log) = (false, log)

-- An edit that a dry run leaves out, and whose failure is only logged: whether it went through.
unfoldable pub try_edit :
    Services → Settings → String → List String → List String → Events → Bool × Events
unfolding edit_jira_labels
try_edit services settings key add remove log =
    if settings.dry_run
    then (true, log)
    else went_through (edit_jira_labels services key add remove log)
