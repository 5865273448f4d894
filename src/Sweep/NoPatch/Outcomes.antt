-- ===== src/Sweep/NoPatch/Outcomes.antt =====
-- Which issues a run handles, and how often pushing one returned or raised.
use ai_workflows.Common.{
  ℕ, ◌+◌, String, Bool, true, false, List, [], ◌∷◌, ◌≡◌, refl, ap, ◌∙◌, contains, if◌then◌else◌,
  Bool-cases, inl, inr, arith,
}
use ai_workflows.Effects.{Result, ok, raised, after}
use ai_workflows.Supervisor.Types.{FullIssue}
use ai_workflows.Supervisor.Services.{Services}
use ai_workflows.Sweep.{SweepState, triage_in_progress}
use ai_workflows.Sweep.NoPatch.{
  keep_eligible, divide, Counts, is_redis_error, tally, requeue, requeue_issues,
}

-- The issues that are not in triage.
abbrev pub not_in_triage : List FullIssue → List FullIssue
not_in_triage [] = []
not_in_triage (issue ∷ issues) =
    let rest = not_in_triage issues in
    if contains issue.labels triage_in_progress then rest else issue ∷ rest

kept :
    (b : Bool) (issue : FullIssue) (parts : ℕ × List FullIssue)
    → (keep_eligible b issue parts).1 ≡ (if b then parts.1 else issue ∷ parts.1)
kept true issue (n, eligible) = refl
kept false issue (n, eligible) = refl

pub divide-not_in_triage : (issues : List FullIssue) → (divide issues).1 ≡ not_in_triage issues
unfolding divide
divide-not_in_triage [] = refl
divide-not_in_triage (issue ∷ issues) =
    kept (contains issue.labels triage_in_progress) issue (divide issues)
    ∙ ap (λ l. if contains issue.labels triage_in_progress then l else issue ∷ l)
        (divide-not_in_triage issues)

abbrev pub one_if_returned : Result (Unit {0}) → ℕ
one_if_returned (ok u) = 1
one_if_returned (raised e) = 0

abbrev pub one_if_raised : Result (Unit {0}) → ℕ
one_if_raised (ok u) = 0
one_if_raised (raised e) = 1

module _ (services : Services) (label : String) (lpush : SweepState → Result (Unit {0}))
    (to_json : String → String) where
  -- The issues for which the push and the change of the labels returned, and those for which one
  -- of them raised, one issue after the other.
  abbrev pub successes : List FullIssue → SweepState → ℕ
  successes [] s = 0
  successes (issue ∷ issues) s =
      let (r, s') = requeue services label lpush to_json issue.key s in
      one_if_returned r + successes issues s'

  abbrev pub failures : List FullIssue → SweepState → ℕ
  failures [] s = 0
  failures (issue ∷ issues) s =
      let (r, s') = requeue services label lpush to_json issue.key s in
      one_if_raised r + failures issues s'

  abbrev pub Exact : ℕ → ℕ → Counts → Result Counts → Type 0
  Exact n m counts (ok c) = (c.unblocked ≡ counts.unblocked + n) × (c.errors ≡ counts.errors + m)
  Exact n m counts (raised e) = Unit

  tally-Exact :
      (counts : Counts) (r : Result (Unit {0}))
      → Exact (one_if_returned r) (one_if_raised r) counts (tally counts r)
  unfolding tally
  tally-Exact counts (ok u) = (omega arith, omega arith)
  tally-Exact counts (raised e) = elim (Bool-cases (is_redis_error e.kind)) [
    | inl stops ↦ rw stops tt
    | inr goes_on ↦ rw goes_on (omega arith, omega arith)
  ]

  then-Exact :
      (a b n m : ℕ) (counts : Counts) (r : Result Counts) (s : SweepState)
      → (rest : Counts → SweepState → Result Counts × SweepState) → Exact a b counts r
      → ((c : Counts) → Exact n m c (rest c s).0)
      → Exact (a + n) (b + m) counts (after rest r s).0
  then-Exact a b n m counts (raised e) s rest h k = tt
  then-Exact a b n m counts (ok c) s rest (h, g) k = added (rest c s).0 (k c)
    where
      added : (r : Result Counts) → Exact n m c r → Exact (a + n) (b + m) counts r
      added (raised e) t = tt
      added (ok d) (t, u) = (omega arith, omega arith)

  pub requeue_issues-Exact :
      (issues : List FullIssue) (counts : Counts) (s : SweepState)
      → Exact
          (successes issues s)
          (failures issues s)
          counts
          (requeue_issues services label lpush to_json issues counts s).0
  unfolding requeue_issues
  requeue_issues-Exact [] counts s = (omega arith, omega arith)
  requeue_issues-Exact (issue ∷ issues) counts s =
      let (r, s') = requeue services label lpush to_json issue.key s in
      then-Exact (one_if_returned r) (one_if_raised r) (successes issues s') (failures issues s')
        counts (tally counts r) s' (requeue_issues services label lpush to_json issues)
        (tally-Exact counts r) (λ c. requeue_issues-Exact issues c s')
