-- ===== src/Sweep/NoPatch.antt =====
-- ymir/sweep/no_patch.py: every issue without a patch is pushed for another triage, up to a cap. The
-- cap is the number that the environment gives, and may be below 0.
pub mod Divided
pub mod Outcomes
pub mod Capped
use ai_workflows.Common.{
  ℕ, suc, ◌+◌, ◌-◌, String, Bool, true, false, List, [], ◌∷◌, length, take, contains, if◌then◌else◌,
}
use ai_workflows.Effects.{Result, ok, raised, Exn, ExnKind, Act, ◌>>◌, after}
use ai_workflows.Supervisor.Types.{FullIssue, ℤ, pos, negsuc}
use ai_workflows.Supervisor.Requests.{Log}
use ai_workflows.Supervisor.Services.{Services}
use ai_workflows.Supervisor.Jira.{CommentSpec, add_issue_label, remove_issue_label}
use ai_workflows.Sweep.{SweepSummary, SweepState, triage_in_progress, on_log, push_task}

abbrev pub max_issues_default : ℤ
max_issues_default = pos 20

abbrev pub keep_eligible : Bool → FullIssue → ℕ × List FullIssue → ℕ × List FullIssue
keep_eligible true issue (n, eligible) = (suc n, eligible)
keep_eligible false issue (n, eligible) = (n, issue ∷ eligible)

-- How many issues are in triage, and the others.
unfoldable pub divide : List FullIssue → ℕ × List FullIssue
divide [] = (0, [])
divide (issue ∷ issues) =
    keep_eligible (contains issue.labels triage_in_progress) issue (divide issues)

-- `eligible[:max_issues]`
abbrev pub up_to : ℤ → List FullIssue → List FullIssue
up_to (pos n) eligible = take n eligible
up_to (negsuc n) eligible = take (length eligible - suc n) eligible

-- The issues that were pushed, and the errors.
pub record Counts : Type 0 where
  pub unblocked : ℕ
  pub errors : ℕ

abbrev pub is_redis_error : ExnKind → Bool
is_redis_error ExnKind.redis_error = true
is_redis_error _ = false

-- The end of an iteration.
unfoldable pub tally : Counts → Result (Unit {0}) → Result Counts
tally counts (ok u) = ok (record counts { unblocked = counts.unblocked + 1 })
tally counts (raised e) =
    if is_redis_error e.kind then raised e else ok (record counts { errors = counts.errors + 1 })

abbrev pub summary : ℕ → ℕ → ℕ → Counts → SweepSummary
summary total in_progress_count capped counts = record {
  total = total;
  unblocked = counts.unblocked;
  transitioned = 0;
  errors = counts.errors;
  still_blocked = in_progress_count + capped;
}

module _ (services : Services) (label : String) (lpush : SweepState → Result (Unit {0}))
    (to_json : String → String) where
  abbrev pub requeue : String → Act SweepState (Unit {0})
  requeue issue_key =
      push_task services label lpush to_json issue_key
      >> (on_log (add_issue_label services false issue_key triage_in_progress CommentSpec.absent)
          >> on_log (remove_issue_label services false issue_key label CommentSpec.absent))

  unfoldable pub requeue_issues : List FullIssue → Counts → Act SweepState Counts
  requeue_issues [] counts s = (ok counts, s)
  requeue_issues (issue ∷ issues) counts s =
      let (r, s') = requeue issue.key s in after (requeue_issues issues) (tally counts r) s'

  abbrev pub requeue_eligible : ℤ → ℕ → ℕ × List FullIssue → Act SweepState SweepSummary
  requeue_eligible max_issues total (in_progress_count, eligible) s =
      let to_process = up_to max_issues eligible in
      let (r, s') = requeue_issues to_process (record { unblocked = 0; errors = 0 }) s in
      after
        (λ counts t.
          (ok (summary total in_progress_count (length eligible - length to_process) counts), t))
        r s'

  unfoldable pub run : ℤ → (Log → Result (List FullIssue)) → Act SweepState SweepSummary
  run max_issues get_blocked_issues (q, log) =
      after (λ issues. requeue_eligible max_issues (length issues) (divide issues))
        (get_blocked_issues log) (q, log)
