-- ===== src/Sweep/Summary.antt =====
-- What a sweep returns, and when it is cut short.
use ai_workflows.Common.{
  ℕ, ◌+◌, ◌≤◌, String, true, Option, none, some, List, [], ◌∷◌, ◌≡◌, ◌⊎◌, inl, inr, refl, length,
  arith, Bool-cases, suc,
}
use ai_workflows.Effects.{Result, ok, raised, Exn, ◌>>=◌, after, pure}
use ai_workflows.Supervisor.Types.{FullIssue}
use ai_workflows.Supervisor.Requests.{Log, Call}
use ai_workflows.Supervisor.Services.{Services}
use ai_workflows.Supervisor.Jira.{CommentSpec, text}
use ai_workflows.Sweep.{
  SweepAction, SweepResult, CommentData, SweepCounts, SweepSummary, SweepState, aborts, counted,
  settle, summary_of, no_counts, act_on, check_parsed, sweep_issues, run_sweep,
}
use ai_workflows.Sweep.Course.{
  of_unblocked, of_transitioned, of_error, of_still_blocked, number_of, Course, Course-length,
  Coursed, sweep_issues-Coursed,
}
use ai_workflows.Sweep.Unblock.{Unblocked, on_unblock-Unblocked}

abbrev handled : SweepCounts → ℕ
handled c = c.unblocked + (c.transitioned + c.errors)

-- The queue of the state, and what an action adds to it at least.
abbrev pushes : SweepAction → ℕ
pushes SweepAction.unblocked = 1
pushes _ = 0

abbrev Queued : ℕ → Result SweepAction × SweepState → Type 0
Queued before (ok action, (q, log)) = before + pushes action ≤ length q
Queued before (raised e, (q, log)) = before ≤ length q

-- What a part of the loop over `n` issues does to the counts and to the queue.
abbrev Swept : ℕ → SweepCounts → ℕ → Result SweepCounts × SweepState → Type 0
Swept n counts before (ok c, (q, log)) =
    (handled c ≤ handled counts + n) × (before + c.unblocked ≤ length q + counts.unblocked)
Swept n counts before (raised e, s) = aborts e.kind ≡ true

counted-Swept :
    (action : SweepAction) (counts : SweepCounts) (before : ℕ) (q : List String) (log : Log)
    → before + pushes action ≤ length q
    → Swept 1 counts before (ok (counted action counts), (q, log))
counted-Swept SweepAction.unblocked counts before q log h = (omega arith, omega arith)
counted-Swept SweepAction.transitioned counts before q log h = (omega arith, omega arith)
counted-Swept SweepAction.error counts before q log h = (omega arith, omega arith)
counted-Swept SweepAction.still_blocked counts before q log h = (omega arith, omega arith)

settle-Swept :
    (counts : SweepCounts) (before : ℕ) (outcome : Result SweepAction × SweepState)
    → Queued before outcome
    → Swept 1 counts before (settle counts outcome)
unfolding settle
settle-Swept counts before (ok action, (q, log)) h = counted-Swept action counts before q log h
settle-Swept counts before (raised e, (q, log)) h = elim (Bool-cases (aborts e.kind)) [
  | inl stops ↦ rw stops stops
  | inr goes_on ↦ rw goes_on (counted-Swept SweepAction.error counts before q log (omega arith))
]

module _ (services : Services) (label : String) (lpush : SweepState → Result (Unit {0}))
    (to_json : String → String) where
  pushed-Queued :
      (r : Result (Unit {0})) (s : SweepState) (q : List String)
      → ((((e : Exn) × (r ≡ raised e)) × (length q ≤ length s.0)) ⊎ (suc (length q) ≤ length s.0))
      → Queued (length q) (after (λ _ t. (ok SweepAction.unblocked, t)) r s)
  pushed-Queued (ok u) s q (inl ((e, h), k)) = ground arith
  pushed-Queued (ok u) s q (inr k) = omega arith
  pushed-Queued (raised e) s q (inl (h, k)) = k
  pushed-Queued (raised e) s q (inr k) = omega arith

  longer :
      (issue_key : String) (comment : CommentSpec) (q : List String) (log : Log)
      → (r : Result (Unit {0})) (s : SweepState)
      → Unblocked services label issue_key comment lpush to_json q log (r, s)
      → ((((e : Exn) × (r ≡ raised e)) × (length q ≤ length s.0)) ⊎ (suc (length q) ≤ length s.0))
  longer issue_key comment q log r s (inl (h, e)) = inl (h, rw e (omega arith))
  longer issue_key comment q log r s (inr (inl (h, e))) = inr (rw e (omega arith))
  longer issue_key comment q log r s (inr (inr e)) = inr (rw e (omega arith))

  act_on-Queued :
      (issue_key : String) (result : SweepResult) (action : SweepAction) (q : List String)
      → (log : Log)
      → Queued (length q) (act_on services label lpush to_json issue_key result action (q, log))
  unfolding act_on ◌>>=◌ pure
  act_on-Queued issue_key result SweepAction.unblocked q log = pushed-Queued _ _ q (
      longer issue_key (text result.detail) q log _ _
        (on_unblock-Unblocked services label issue_key (text result.detail) lpush to_json q log))
  act_on-Queued issue_key result SweepAction.transitioned q log = omega arith
  act_on-Queued issue_key result SweepAction.error q log = omega arith
  act_on-Queued issue_key result SweepAction.still_blocked q log = omega arith

  module _ (parse_ymir_comment : FullIssue → Result (Option CommentData))
      (is_unblocked : FullIssue → CommentData → Call SweepResult) where
    judged-Queued :
        (issue_key : String) (r : Result SweepResult) (q : List String) (log : Log)
        → Queued (length q) (
            after
              (λ result. act_on services label lpush to_json issue_key result result.action)
              r
              (q, log))
    judged-Queued issue_key (ok result) q log = act_on-Queued issue_key result result.action q log
    judged-Queued issue_key (raised e) q log = omega arith

    check_parsed-Queued :
        (issue : FullIssue) (parsed : Result (Option CommentData)) (q : List String) (log : Log)
        → Queued (length q) (
            check_parsed services label lpush to_json parse_ymir_comment is_unblocked issue parsed
              (q, log))
    unfolding check_parsed ◌>>=◌
    check_parsed-Queued issue (raised e) q log = omega arith
    check_parsed-Queued issue (ok none) q log = omega arith
    check_parsed-Queued issue (ok (some comment_data)) q log = judged-Queued issue.key _ q _

    abbrev Rest : Type 0
    Rest = SweepCounts → SweepState → Result SweepCounts × SweepState

    then-Swept :
        (n : ℕ) (counts : SweepCounts) (before : ℕ) (r : Result SweepCounts) (s : SweepState)
        → (rest : Rest) → Swept 1 counts before (r, s)
        → ((c : SweepCounts) → Swept n c (length s.0) (rest c s))
        → Swept (suc n) counts before (after rest r s)
    then-Swept n counts before (raised e) s rest h k = h
    then-Swept n counts before (ok c) s rest (h, g) k = joined (rest c s) (k c)
      where
        joined :
            (outcome : Result SweepCounts × SweepState)
            → Swept n c (length s.0) outcome
            → Swept (suc n) counts before outcome
        joined (ok c', (q, log)) (a, b) = (omega arith, omega arith)
        joined (raised e, t) a = a

    sweep_issues-Swept :
        (issues : List FullIssue) (counts : SweepCounts) (q : List String) (log : Log)
        → Swept (length issues) counts (length q) (
            sweep_issues services label lpush to_json parse_ymir_comment is_unblocked issues counts
              (q, log))
    unfolding sweep_issues
    sweep_issues-Swept [] counts q log = (omega arith, omega arith)
    sweep_issues-Swept (issue ∷ issues) counts q log =
        then-Swept (length issues) counts (length q) _ _ _
          (settle-Swept counts (length q) _
            (check_parsed-Queued issue (parse_ymir_comment issue) q log))
          (λ c. sweep_issues-Swept issues c _ _)

    module _ (get_blocked_issues : Log → Result (List FullIssue)) (q : List String)
        (log : Log) where
      -- A summary `s` of the actions that the issues led to.
      abbrev pub SumsUp : SweepSummary → List FullIssue → List SweepAction → Type 0
      SumsUp s issues actions =
          (s.total ≡ length issues)
          × (s.unblocked ≡ number_of of_unblocked actions)
          × (s.transitioned ≡ number_of of_transitioned actions)
          × (s.errors ≡ number_of of_error actions)
          × (s.still_blocked ≡ number_of of_still_blocked actions)

      abbrev pub SummaryMeaning : Result SweepSummary × SweepState → Type 0
      SummaryMeaning (ok s, (q', log')) =
          ((issues : List FullIssue) × (get_blocked_issues log ≡ ok issues)
            × ((actions : List SweepAction) × Course services label lpush to_json parse_ymir_comment
                  is_unblocked issues (q, log) actions (q', log')
                × SumsUp s issues actions))
          × (length q + s.unblocked ≤ length q')
      SummaryMeaning (raised e, s) = (get_blocked_issues log ≡ raised e) ⊎ (aborts e.kind ≡ true)

      summary-SummaryMeaning :
          (issues : List FullIssue) (r : Result SweepCounts) (s : SweepState)
          → get_blocked_issues log ≡ ok issues
          → Swept (length issues) no_counts (length q) (r, s)
          → Coursed services label lpush to_json parse_ymir_comment is_unblocked issues no_counts
              (q, log)
              r
              s
          → SummaryMeaning (after (λ c t. (ok (summary_of (length issues) c), t)) r s)
      summary-SummaryMeaning issues (ok c) s read (h, k) (actions, course, (u, t, e)) =
          let each =
            Course-length services label lpush to_json parse_ymir_comment is_unblocked issues
              (q, log) s actions course in
          (
            (
              issues,
              read,
              (actions, course, (refl, omega arith, omega arith, omega arith, omega (arith, each))),
            ),
            omega arith,
          )
      summary-SummaryMeaning issues (raised e) s read h course = inr h

      blocked-SummaryMeaning :
          (blocked : Result (List FullIssue))
          → get_blocked_issues log ≡ blocked
          → SummaryMeaning (
              after
                (λ issues t.
                  let (r, s) =
                    sweep_issues services label lpush to_json parse_ymir_comment is_unblocked issues
                      no_counts t in
                  after (λ c t. (ok (summary_of (length issues) c), t)) r s)
                blocked
                (q, log))
      blocked-SummaryMeaning (raised e) h = inl h
      blocked-SummaryMeaning (ok issues) h =
          summary-SummaryMeaning issues _ _ h (sweep_issues-Swept issues no_counts q log) (
            sweep_issues-Coursed services label lpush to_json parse_ymir_comment is_unblocked issues
              no_counts (q, log))

      -- A sweep that returns has read issues, and handled them one after the other, each with one
      -- action: what its check returned, or `error` for an exception that does not end the sweep.
      -- The total is the number of issues read, the four counts are the numbers of those actions,
      -- and the triage queue has at least as many entries more as issues were unblocked. A sweep
      -- that raises could not read the issues, or was ended by an error of Redis or of the
      -- operating system, that of a failed request included.
      pub run_sweep-SummaryMeaning : SummaryMeaning (
          run_sweep services label lpush to_json parse_ymir_comment is_unblocked get_blocked_issues
            (q, log))
      unfolding run_sweep ◌>>=◌ pure
      run_sweep-SummaryMeaning = blocked-SummaryMeaning (get_blocked_issues log) refl
