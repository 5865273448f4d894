-- ===== src/Sweep/NoPatch/Capped.antt =====
-- What a run pushes and counts.
use ai_workflows.Common.{ℕ, ◌+◌, String, true, List, ◌≡◌, ◌⊎◌, length, take}
use ai_workflows.Effects.{Result, ok, raised}
use ai_workflows.Supervisor.Types.{FullIssue}
use ai_workflows.Supervisor.Requests.{Log}
use ai_workflows.Supervisor.Services.{Services}
use ai_workflows.Sweep.{SweepSummary, SweepState}
use ai_workflows.Sweep.NoPatch.Divided.{Batch, Eligible}
use ai_workflows.Sweep.NoPatch.Outcomes.{not_in_triage, successes, failures}
use ai_workflows.Sweep.NoPatch.{Counts, is_redis_error}

-- Counts that have grown by a number, or an error of Redis.
abbrev Tallied : ℕ → Counts → Result Counts → Type 0
Tallied n counts (ok c) = c.unblocked + c.errors ≡ counts.unblocked + counts.errors + n
Tallied n counts (raised e) = is_redis_error e.kind ≡ true

module _ (services : Services) (label : String) (lpush : SweepState → Result (Unit {0}))
    (to_json : String → String) where
  abbrev Requeued :
      (String → Type 0) → ℕ → Counts → List String → Result Counts × SweepState → Type 0
  Requeued P n counts q outcome = Batch P n q outcome.1.0 × Tallied n counts outcome.0

  module _ (issues : List FullIssue) (q : List String) where
    -- The task of an issue that was read and is not in triage.
    abbrev OfEligible : String → Type 0
    OfEligible entry = (issue : FullIssue) × (entry ≡ to_json issue.key) × Eligible issues issue

    abbrev Counted : ℕ → ℕ → Result SweepSummary → Type 0
    Counted u f (ok s) =
        (s.total ≡ length issues)
        × (s.unblocked ≡ u)
        × (s.errors ≡ f)
        × (s.total ≡ s.unblocked + (s.transitioned + (s.errors + s.still_blocked)))
    Counted u f (raised e) = is_redis_error e.kind ≡ true

  module _ (get_blocked_issues : Log → Result (List FullIssue)) (q : List String) (log : Log) where
    -- The task of an issue that was read and is not in triage.
    abbrev pub OfRead : String → Type 0
    OfRead entry =
        (issues : List FullIssue) × (get_blocked_issues log ≡ ok issues)
        × ((issue : FullIssue) × (entry ≡ to_json issue.key) × Eligible issues issue)

    abbrev pub Summed : ℕ → Result SweepSummary → Type 0
    Summed n (ok s) =
        ((issues : List FullIssue) × (get_blocked_issues log ≡ ok issues)
          × (s.total ≡ length issues)
          × (s.unblocked
              ≡ successes services label lpush to_json (take n (not_in_triage issues)) (q, log))
          × (s.errors
              ≡ failures services label lpush to_json (take n (not_in_triage issues)) (q, log)))
        × (s.total ≡ s.unblocked + (s.transitioned + (s.errors + s.still_blocked)))
    Summed n (raised e) = (get_blocked_issues log ≡ raised e) ⊎ (is_redis_error e.kind ≡ true)
