-- ===== src/Sweep/Course.antt =====
-- The course of a sweep: which action each issue led to, one after the other.
use ai_workflows.Common.{
  ℕ, ◌+◌, String, false, Option, List, [], ◌∷◌, ◌≡◌, ◌⊎◌, inl, inr, refl, subst, length, arith,
  Bool-cases,
}
use ai_workflows.Effects.{Result, ok, raised, Exn, after}
use ai_workflows.Supervisor.Types.{FullIssue}
use ai_workflows.Supervisor.Requests.{Call}
use ai_workflows.Supervisor.Services.{Services}
use ai_workflows.Sweep.{
  SweepAction, SweepResult, CommentData, SweepCounts, SweepState, aborts, counted, settle,
  check_parsed, sweep_issues,
}

-- How often an action stands in a list.
abbrev pub of_unblocked : SweepAction → ℕ
of_unblocked SweepAction.unblocked = 1
of_unblocked _ = 0

abbrev pub of_transitioned : SweepAction → ℕ
of_transitioned SweepAction.transitioned = 1
of_transitioned _ = 0

abbrev pub of_error : SweepAction → ℕ
of_error SweepAction.error = 1
of_error _ = 0

abbrev pub of_still_blocked : SweepAction → ℕ
of_still_blocked SweepAction.still_blocked = 1
of_still_blocked _ = 0

abbrev pub number_of : (SweepAction → ℕ) → List SweepAction → ℕ
number_of f [] = 0
number_of f (a ∷ rest) = f a + number_of f rest

-- The counts have grown by the actions of a list.
abbrev pub Grew : SweepCounts → List SweepAction → SweepCounts → Type 0
Grew counts actions c =
    (c.unblocked ≡ counts.unblocked + number_of of_unblocked actions)
    × (c.transitioned ≡ counts.transitioned + number_of of_transitioned actions)
    × (c.errors ≡ counts.errors + number_of of_error actions)

Grew-cons :
    (a : SweepAction) (actions : List SweepAction) (counts c : SweepCounts)
    → Grew (counted a counts) actions c
    → Grew counts (a ∷ actions) c
Grew-cons SweepAction.unblocked actions counts c (u, t, e) = (omega arith, omega arith, omega arith)
Grew-cons SweepAction.transitioned actions counts c (u, t, e) =
    (omega arith, omega arith, omega arith)
Grew-cons SweepAction.error actions counts c (u, t, e) = (omega arith, omega arith, omega arith)
Grew-cons SweepAction.still_blocked actions counts c (u, t, e) =
    (omega arith, omega arith, omega arith)

one_each :
    (a : SweepAction) → of_unblocked a + (of_transitioned a + (of_error a + of_still_blocked a)) ≡ 1
one_each SweepAction.unblocked = refl
one_each SweepAction.transitioned = refl
one_each SweepAction.error = refl
one_each SweepAction.still_blocked = refl

module _ (services : Services) (label : String) (lpush : SweepState → Result (Unit {0}))
    (to_json : String → String) (parse_ymir_comment : FullIssue → Result (Option CommentData))
    (is_unblocked : FullIssue → CommentData → Call SweepResult) where
  abbrev check_of : FullIssue → SweepState → Result SweepAction × SweepState
  check_of issue s =
      check_parsed services label lpush to_json parse_ymir_comment is_unblocked issue
        (parse_ymir_comment issue) s

  -- The action of an issue is what its check returned, or `error` for an exception that does not
  -- end the sweep.
  abbrev pub Handled : FullIssue → SweepState → SweepAction → SweepState → Type 0
  Handled issue s action s' =
      (check_of issue s ≡ (ok action, s'))
      ⊎ ((action ≡ SweepAction.error)
          × ((e : Exn) × (check_of issue s ≡ (raised e, s')) × (aborts e.kind ≡ false)))

  abbrev pub Course : List FullIssue → SweepState → List SweepAction → SweepState → Type 0
  Course [] s [] s' = s' ≡ s
  Course (issue ∷ issues) s (action ∷ actions) s' =
      (between : SweepState) × Handled issue s action between × Course issues between actions s'
  Course [] s (action ∷ actions) s' = ⊥
  Course (issue ∷ issues) s [] s' = ⊥

  pub Course-length :
      (issues : List FullIssue) (s s' : SweepState) (actions : List SweepAction)
      → Course issues s actions s'
      → number_of of_unblocked actions
          + (number_of of_transitioned actions
              + (number_of of_error actions + number_of of_still_blocked actions))
        ≡ length issues
  Course-length [] s s' [] h = refl
  Course-length (issue ∷ issues) s s' (a ∷ actions) (between, here, h) =
      omega (arith, one_each a, Course-length issues between s' actions h)
  Course-length [] s s' (a ∷ actions) h = elim h [ ]
  Course-length (issue ∷ issues) s s' [] h = elim h [ ]

  abbrev pub Coursed :
      List FullIssue → SweepCounts → SweepState → Result SweepCounts → SweepState → Type 0
  Coursed issues counts s (ok c) s' =
      (actions : List SweepAction) × Course issues s actions s' × Grew counts actions c
  Coursed issues counts s (raised e) s' = Unit

  abbrev Settled : FullIssue → SweepCounts → SweepState → Result SweepCounts → SweepState → Type 0
  Settled issue counts s (ok c) s' =
      (action : SweepAction) × Handled issue s action s' × (c ≡ counted action counts)
  Settled issue counts s (raised e) s' = Unit

  settle-Settled :
      (issue : FullIssue) (counts : SweepCounts) (s : SweepState)
      → (outcome : Result SweepAction × SweepState) → check_of issue s ≡ outcome
      → Settled issue counts s (settle counts outcome).0 (settle counts outcome).1
  unfolding settle
  settle-Settled issue counts s (ok action, s') h = (action, inl h, refl)
  settle-Settled issue counts s (raised e, s') h = elim (Bool-cases (aborts e.kind)) [
    | inl stops ↦ rw stops tt
    | inr goes_on ↦ rw goes_on (SweepAction.error, inr (refl, (e, h, goes_on)), refl)
  ]

  then-Coursed :
      (issue : FullIssue) (issues : List FullIssue) (counts : SweepCounts) (s : SweepState)
      → (r : Result SweepCounts) (s' : SweepState)
      → (rest : SweepCounts → SweepState → Result SweepCounts × SweepState)
      → Settled issue counts s r s'
      → ((c : SweepCounts) → Coursed issues c s' (rest c s').0 (rest c s').1)
      → Coursed (issue ∷ issues) counts s (after rest r s').0 (after rest r s').1
  then-Coursed issue issues counts s (raised e) s' rest h k = tt
  then-Coursed issue issues counts s (ok c) s' rest (action, here, e) k =
      joined (rest c s').0 (rest c s').1 (k c)
    where
      joined :
          (r : Result SweepCounts) (t : SweepState)
          → Coursed issues c s' r t
          → Coursed (issue ∷ issues) counts s r t
      joined (raised e') t h = tt
      joined (ok d) t (actions, course, grew) = (
        action ∷ actions,
        (s', here, course),
        Grew-cons action actions counts d (subst (λ x. Grew x actions d) e grew),
      )

  pub sweep_issues-Coursed :
      (issues : List FullIssue) (counts : SweepCounts) (s : SweepState)
      → let done =
          sweep_issues services label lpush to_json parse_ymir_comment is_unblocked issues counts
            s in
        Coursed issues counts s done.0 done.1
  unfolding sweep_issues
  sweep_issues-Coursed [] counts s = ([], refl, (omega arith, omega arith, omega arith))
  sweep_issues-Coursed (issue ∷ issues) counts s =
      let settled = settle counts (check_of issue s) in
      then-Coursed issue issues counts s settled.0 settled.1
        (sweep_issues services label lpush to_json parse_ymir_comment is_unblocked issues)
        (settle-Settled issue counts s (check_of issue s) refl)
        (λ c. sweep_issues-Coursed issues c settled.1)
