-- ===== src/Sweep.antt =====
-- ymir/sweep/base.py: the sweep over the postponed issues of one category. The state is the triage
-- queue beside the log of requests. What a strategy decides (`is_unblocked`), and what is read from
-- a comment (`parse_ymir_comment`), are parameters.
pub mod Unblock
pub mod Course
pub mod Summary
pub mod Dependency
pub mod Deserved
pub mod PrPending
pub mod YStream
pub mod NoPatch
use ai_workflows.Common.{
  ℕ, ◌+◌, ◌-◌, String, Bool, true, false, Option, none, some, List, [], ◌∷◌, length, if◌then◌else◌,
}
use ai_workflows.Effects.{Result, ok, raised, Exn, ExnKind, Act, pure, ◌>>=◌, ◌>>◌, after}
use ai_workflows.Supervisor.Types.{FullIssue}
use ai_workflows.Supervisor.Requests.{Log, Call}
use ai_workflows.Supervisor.Services.{Services}
use ai_workflows.Supervisor.Jira.{CommentSpec, text, add_issue_label, remove_issue_label}

pub data SweepAction : Type 0 where
  unblocked transitioned still_blocked error : SweepAction

pub record SweepResult : Type 0 where
  pub issue_key : String
  pub action : SweepAction
  pub detail : String

pub record CommentData : Type 0 where
  pub blocker_references : Option (List String)
  pub pending_issues : List String
  pub summary : Option String
  pub comment_id : String

-- The counts that the loop keeps, and what `run` returns.
pub record SweepCounts : Type 0 where
  pub unblocked : ℕ
  pub transitioned : ℕ
  pub errors : ℕ

pub record SweepSummary : Type 0 where
  pub total : ℕ
  pub unblocked : ℕ
  pub transitioned : ℕ
  pub errors : ℕ
  pub still_blocked : ℕ

abbrev pub SweepState : Type 0
SweepState = List String × Log

abbrev pub triage_in_progress : String
triage_in_progress = "ymir_triage_in_progress"

-- `(redis.RedisError, OSError)`; the HTTPError of requests is an IOError, which is OSError.
abbrev pub aborts : ExnKind → Bool
aborts ExnKind.redis_error = true
aborts ExnKind.os_error = true
aborts ExnKind.http_error = true
aborts _ = false

abbrev pub counted : SweepAction → SweepCounts → SweepCounts
counted SweepAction.unblocked c = record c { unblocked = c.unblocked + 1 }
counted SweepAction.transitioned c = record c { transitioned = c.transitioned + 1 }
counted SweepAction.error c = record c { errors = c.errors + 1 }
counted SweepAction.still_blocked c = c

-- The end of an iteration: most exceptions become a count, some end the sweep.
unfoldable pub settle :
    SweepCounts → Result SweepAction × SweepState → Result SweepCounts × SweepState
settle counts (ok action, s) = (ok (counted action counts), s)
settle counts (raised e, s) =
    if aborts e.kind then (raised e, s) else (ok (counted SweepAction.error counts), s)

abbrev pub summary_of : ℕ → SweepCounts → SweepSummary
summary_of total c = record {
  total = total;
  unblocked = c.unblocked;
  transitioned = c.transitioned;
  errors = c.errors;
  still_blocked = total - c.unblocked - c.transitioned - c.errors;
}

abbrev pub no_counts : SweepCounts
no_counts = record { unblocked = 0; transitioned = 0; errors = 0 }

-- A call of Jira leaves the queue alone.
abbrev pub on_log : {A : Type 0} → Call A → Act SweepState A
on_log m (q, log) = let (r, log') = m log in (r, (q, log'))

module _ (services : Services) (label : String) where
  unfoldable pub on_transition : String → String → CommentSpec → Call (Unit {0})
  on_transition issue_key new_label comment =
      add_issue_label services false issue_key new_label comment
      >> remove_issue_label services false issue_key label CommentSpec.absent

  -- `lpush` raises or pushes; `to_json` is the text of the task of an issue.
  module _ (lpush : SweepState → Result (Unit {0})) (to_json : String → String) where
    unfoldable pub push_task : String → Act SweepState (Unit {0})
    push_task issue_key (q, log) =
        after (λ _ (q', log'). (ok tt, (to_json issue_key ∷ q', log'))) (lpush (q, log)) (q, log)

    unfoldable pub on_unblock : String → CommentSpec → Act SweepState (Unit {0})
    on_unblock issue_key comment =
        push_task issue_key
        >> (on_log (add_issue_label services false issue_key triage_in_progress CommentSpec.absent)
            >> on_log (remove_issue_label services false issue_key label comment))

    -- What is done about the result of a check.
    unfoldable pub act_on : String → SweepResult → SweepAction → Act SweepState SweepAction
    act_on issue_key result SweepAction.unblocked =
        on_unblock issue_key (text result.detail) >> pure SweepAction.unblocked
    act_on issue_key result SweepAction.transitioned = pure SweepAction.transitioned
    act_on issue_key result SweepAction.error = pure SweepAction.error
    act_on issue_key result SweepAction.still_blocked = pure SweepAction.still_blocked

    module _ (parse_ymir_comment : FullIssue → Result (Option CommentData))
        (is_unblocked : FullIssue → CommentData → Call SweepResult) where
      -- The body of the `try`, from the parsed comment.
      unfoldable pub check_parsed :
          FullIssue → Result (Option CommentData) → Act SweepState SweepAction
      check_parsed issue (raised e) s = (raised e, s)
      check_parsed issue (ok none) s = (ok SweepAction.error, s)
      check_parsed issue (ok (some comment_data)) s =
          (on_log (is_unblocked issue comment_data) >>= λ result.
          act_on issue.key result result.action)
            s

      unfoldable pub sweep_issues : List FullIssue → SweepCounts → Act SweepState SweepCounts
      sweep_issues [] counts s = (ok counts, s)
      sweep_issues (issue ∷ issues) counts s =
          let (r, s') = settle counts (check_parsed issue (parse_ymir_comment issue) s) in
          after (λ counts'. sweep_issues issues counts') r s'

      -- `run`, from the issues that Jira gives for the label.
      unfoldable pub run_sweep : (Log → Result (List FullIssue)) → Act SweepState SweepSummary
      run_sweep get_blocked_issues (q, log) =
          after
            (λ issues. sweep_issues issues no_counts >>= λ c. pure (summary_of (length issues) c))
            (get_blocked_issues log) (q, log)
