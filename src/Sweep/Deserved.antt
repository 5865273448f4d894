-- ===== src/Sweep/Deserved.antt =====
-- What a sweep pushes: only issues that its strategy found unblocked.
use ai_workflows.Common.{
  String, Option, none, some, List, [], ◌∷◌, ◌++◌, ◌≡◌, inl, inr, refl, sym, ap, ◌∙◌, Some, All,
  All-weaker, append_append, All-append, Bool-cases,
}
use ai_workflows.Effects.{Result, ok, raised, ◌>>=◌, after, pure}
use ai_workflows.Supervisor.Types.{FullIssue}
use ai_workflows.Supervisor.Requests.{Log, Call}
use ai_workflows.Supervisor.Services.{Services}
use ai_workflows.Supervisor.Jira.{CommentSpec, text}
use ai_workflows.Sweep.{
  SweepAction, SweepResult, CommentData, SweepCounts, SweepState, aborts, settle, no_counts,
  summary_of, act_on, check_parsed, sweep_issues, run_sweep,
}
use ai_workflows.Sweep.Unblock.{Unblocked, on_unblock-Unblocked}

-- The queue has grown at its head, by entries with a property only.
abbrev pub Grown : (String → Type 0) → List String → List String → Type 0
Grown P q q' = (pushed : List String) × (q' ≡ pushed ++ q) × All P pushed

Grown-none : (P : String → Type 0) (q : List String) → Grown P q q
Grown-none P q = ([], refl, tt)

Grown-more : (P : String → Type 0) (q r s : List String) → Grown P q r → Grown P r s → Grown P q s
Grown-more P q r s (xs, e, hx) (ys, f, hy) =
    (ys ++ xs, f ∙ (ap (λ l. ys ++ l) e ∙ sym (append_append ys xs q)), All-append P ys xs hy hx)

pub Grown-weaker :
    (P Q : String → Type 0) (q r : List String)
    → ((s : String) → P s → Q s)
    → Grown P q r
    → Grown Q q r
Grown-weaker P Q q r f (xs, e, h) = (xs, e, All-weaker P Q xs f h)

module _ (services : Services) (label : String) (lpush : SweepState → Result (Unit {0}))
    (to_json : String → String) where
  abbrev Entry : String → String → Type 0
  Entry issue_key entry = entry ≡ to_json issue_key

  Unblocked-Grown :
      (issue_key : String) (comment : CommentSpec) (q : List String) (log : Log)
      → (outcome : Result (Unit {0}) × SweepState)
      → Unblocked services label issue_key comment lpush to_json q log outcome
      → Grown (Entry issue_key) q outcome.1.0
  Unblocked-Grown issue_key comment q log outcome (inl (h, e)) = ([], ap (λ s. s.0) e, tt)
  Unblocked-Grown issue_key comment q log outcome (inr (inl (h, e))) =
      (to_json issue_key ∷ [], ap (λ s. s.0) e, (refl, tt))
  Unblocked-Grown issue_key comment q log outcome (inr (inr e)) =
      (to_json issue_key ∷ [], ap (λ s. s.0) e, (refl, tt))

  after-state :
      {A B : Type 0} (f : A → B) (r : Result A) (s : SweepState)
      → (after (λ a t. (ok (f a), t)) r s).1 ≡ s
  after-state f (ok a) s = refl
  after-state f (raised e) s = refl

  -- Only the action `unblocked` pushes anything.
  abbrev pub ForAction : String → SweepAction → String → Type 0
  ForAction issue_key action entry = (action ≡ SweepAction.unblocked) × (entry ≡ to_json issue_key)

  act_on-Grown :
      (issue_key : String) (result : SweepResult) (action : SweepAction) (q : List String)
      (log : Log)
      → Grown
          (ForAction issue_key action)
          q
          (act_on services label lpush to_json issue_key result action (q, log)).1.0
  unfolding act_on ◌>>=◌ pure
  act_on-Grown issue_key result SweepAction.unblocked q log =
      let (xs, e, h) =
        Grown-weaker (Entry issue_key) (ForAction issue_key SweepAction.unblocked) q _
          (λ s p. (refl, p))
          (Unblocked-Grown issue_key (text result.detail) q log _ (
            on_unblock-Unblocked services label issue_key (text result.detail) lpush to_json q
              log)) in
      (xs, ap (λ s. s.0) (after-state (λ _. SweepAction.unblocked) _ _) ∙ e, h)
  act_on-Grown issue_key result SweepAction.transitioned q log = Grown-none _ q
  act_on-Grown issue_key result SweepAction.error q log = Grown-none _ q
  act_on-Grown issue_key result SweepAction.still_blocked q log = Grown-none _ q

  module _ (parse_ymir_comment : FullIssue → Result (Option CommentData))
      (is_unblocked : FullIssue → CommentData → Call SweepResult) where
    -- The strategy found the issue unblocked, at some moment of the sweep.
    abbrev pub FoundUnblocked : String → FullIssue → Type 0
    FoundUnblocked entry issue =
        (entry ≡ to_json issue.key)
        × ((comment_data : CommentData) × (parse_ymir_comment issue ≡ ok (some comment_data))
            × ((log : Log) × (result : SweepResult) × ((is_unblocked issue comment_data log).0
                  ≡ ok result)
                × (result.action ≡ SweepAction.unblocked)))

    judged-Grown :
        (issue : FullIssue) (comment_data : CommentData) (q : List String) (log log' : Log)
        → (r : Result SweepResult) → parse_ymir_comment issue ≡ ok (some comment_data)
        → (is_unblocked issue comment_data log).0 ≡ r
        → Grown
            (λ entry. FoundUnblocked entry issue)
            q
            (after
              (λ result. act_on services label lpush to_json issue.key result result.action)
              r
              (q, log')).1.0
    judged-Grown issue comment_data q log log' (raised e) parsed judged = Grown-none _ q
    judged-Grown issue comment_data q log log' (ok result) parsed judged =
        Grown-weaker (ForAction issue.key result.action) (λ entry. FoundUnblocked entry issue) q _
          (λ entry (unblocked, e). (e, (comment_data, parsed, (log, result, judged, unblocked))))
          (act_on-Grown issue.key result result.action q log')

    check_parsed-Grown :
        (issue : FullIssue) (parsed : Result (Option CommentData)) (q : List String) (log : Log)
        → parse_ymir_comment issue ≡ parsed
        → Grown
            (λ entry. FoundUnblocked entry issue)
            q
            (check_parsed services label lpush to_json parse_ymir_comment is_unblocked issue parsed
              (q, log)).1.0
    unfolding check_parsed ◌>>=◌
    check_parsed-Grown issue (raised e) q log h = Grown-none _ q
    check_parsed-Grown issue (ok none) q log h = Grown-none _ q
    check_parsed-Grown issue (ok (some comment_data)) q log h =
        judged-Grown issue comment_data q log _ _ h refl

    settle-state :
        (counts : SweepCounts) (outcome : Result SweepAction × SweepState)
        → (settle counts outcome).1 ≡ outcome.1
    unfolding settle
    settle-state counts (ok action, s) = refl
    settle-state counts (raised e, s) = elim (Bool-cases (aborts e.kind)) [
      | inl stops ↦ rw stops refl
      | inr goes_on ↦ rw goes_on refl
    ]

    then-Grown :
        (P : String → Type 0) (q : List String) (r : Result SweepCounts) (s : SweepState)
        → (rest : SweepCounts → SweepState → Result SweepCounts × SweepState) → Grown P q s.0
        → ((c : SweepCounts) → Grown P s.0 (rest c s).1.0)
        → Grown P q (after rest r s).1.0
    then-Grown P q (raised e) s rest h k = h
    then-Grown P q (ok c) s rest h k = Grown-more P q s.0 (rest c s).1.0 h (k c)

    sweep_issues-Grown :
        (issues : List FullIssue) (counts : SweepCounts) (q : List String) (log : Log)
        → Grown
            (λ entry. Some (FoundUnblocked entry) issues)
            q
            (sweep_issues services label lpush to_json parse_ymir_comment is_unblocked issues counts
              (q, log)).1.0
    unfolding sweep_issues
    sweep_issues-Grown [] counts q log = Grown-none _ q
    sweep_issues-Grown (issue ∷ issues) counts q log =
        let outcome =
          check_parsed services label lpush to_json parse_ymir_comment is_unblocked issue
            (parse_ymir_comment issue) (q, log) in
        let (xs, e, h) =
          Grown-weaker (λ entry. FoundUnblocked entry issue)
            (λ entry. Some (FoundUnblocked entry) (issue ∷ issues)) q _ (λ entry p. inl p)
            (check_parsed-Grown issue (parse_ymir_comment issue) q log refl) in
        then-Grown (λ entry. Some (FoundUnblocked entry) (issue ∷ issues)) q
          (settle counts outcome).0 (settle counts outcome).1
          (λ c s.
            sweep_issues services label lpush to_json parse_ymir_comment is_unblocked issues c s)
          (xs, ap (λ s. s.0) (settle-state counts outcome) ∙ e, h)
          (λ c.
            Grown-weaker (λ entry. Some (FoundUnblocked entry) issues)
              (λ entry. Some (FoundUnblocked entry) (issue ∷ issues)) (settle counts outcome).1.0 _
              (λ entry p. inr p)
              (sweep_issues-Grown issues c (settle counts outcome).1.0 (settle counts outcome).1.1))

    -- Every task that a sweep pushes is of an issue among those it has read whose comment was
    -- parsed and which the strategy found unblocked; a sweep that raises pushes no other either.
    pub run_sweep-FoundUnblocked :
        (issues : List FullIssue) (q : List String) (log : Log)
        → Grown
            (λ entry. Some (FoundUnblocked entry) issues)
            q
            (run_sweep services label lpush to_json parse_ymir_comment is_unblocked
              (λ _. ok issues)
              (q, log)).1.0
    unfolding run_sweep ◌>>=◌ pure
    run_sweep-FoundUnblocked issues q log =
        let (xs, e, h) = sweep_issues-Grown issues no_counts q log in
        (xs, ap (λ s. s.0) (after-state (summary_of _) _ _) ∙ e, h)
