-- ===== src/IssueFetcher/Mark/Meaning/Loop.antt =====
-- What the marks of a list of issues say.
use ai_workflows.Common.{
  String, true, false, List, [], ◌∷◌, ◌≡◌, ◌⊎◌, inl, inr, subst, contains, Bool-cases, All,
}
use ai_workflows.Effects.{Result, ok, raised, after}
use ai_workflows.IssueFetcher.Types.{FoundIssue, Settings, Events, Services}
use ai_workflows.IssueFetcher.Mark.{Marks, mark_issue, mark_issues}
use ai_workflows.IssueFetcher.Mark.Meaning.{
  Marked, is_labelled, Again, Grown, Grown-Marked, Grown-refl, Grown-trans, Triggered, Asked,
  Marking, MarksOf, mark_issue-Marks_of,
}

module _ (services : Services) (settings : Settings) where
  -- What the loop does to the marks: `P` holds of the keys that issues trigger, `Q` of those for
  -- which an issue asks for another run.
  pub record AllMarked (P Q : String → Type 0) (issues : List FoundIssue) (m n : Marks)
      : Type 0 where
    pub grown : Grown m n
    pub again : Again m → Again n
    pub marked : All (λ issue. (is_labelled issue ≡ false) ⊎ Marked issue.key n) issues
    pub triggered :
        (k : String)
        → contains n.user_triggered k ≡ true
        → (contains m.user_triggered k ≡ true) ⊎ P k
    pub retried :
        (k : String) → contains n.retry_needed k ≡ true → (contains m.retry_needed k ≡ true) ⊎ Q k

  abbrev pub AllMarks :
      (String → Type 0)
      → (String → Type 0)
      → List FoundIssue
      → Marks
      → Result Marks × Events
      → Type 0
  AllMarks P Q issues m (raised e, log) = Unit
  AllMarks P Q issues m (ok n, log) = AllMarked P Q issues m n

  joined :
      (P Q : String → Type 0) (issue : FoundIssue) (issues : List FoundIssue) (m n : Marks)
      → (outcome : Result Marks × Events) → ((Triggered services settings issue) → P issue.key)
      → (Asked services settings issue → Q issue.key)
      → Marking services settings issue m n
      → AllMarks P Q issues n outcome
      → AllMarks P Q (issue ∷ issues) m outcome
  joined P Q issue issues m n (raised e, log) why ask first rest = tt
  joined P Q issue issues m n (ok o, log) why ask first rest = record {
    grown = Grown-trans first.grown rest.grown;
    again = λ a. rest.again (first.again a);
    marked = (
      elim (Bool-cases (is_labelled issue)) [
        | inl labelled ↦ inr (Grown-Marked issue.key rest.grown (first.marked labelled))
        | inr bare ↦ inl bare
      ],
      rest.marked,
    );
    triggered = λ k h. elim (rest.triggered k h) [
      | inr p ↦ inr p
      | inl before ↦ elim (first.triggered k before) [
        | inl earlier ↦ inl earlier
        | inr (same, t) ↦ inr (subst P same (why t))
      ]
    ];
    retried = λ k h. elim (rest.retried k h) [
      | inr p ↦ inr p
      | inl before ↦ elim (first.retried k before) [
        | inl earlier ↦ inl earlier
        | inr (same, t) ↦ inr (subst Q same (ask t))
      ]
    ];
  }

  then-AllMarks :
      (P Q : String → Type 0) (issue : FoundIssue) (issues : List FoundIssue) (m : Marks)
      → (first : Result Marks × Events) → (Triggered services settings issue → P issue.key)
      → (Asked services settings issue → Q issue.key)
      → MarksOf services settings issue m first
      → ((n : Marks) (log : Events)
          → AllMarks P Q issues n (mark_issues services settings issues n log))
      → AllMarks P Q
          (issue ∷ issues)
          m
          (after (mark_issues services settings issues) first.0 first.1)
  then-AllMarks P Q issue issues m (raised e, log) why ask first rest = tt
  then-AllMarks P Q issue issues m (ok n, log) why ask first rest =
      joined P Q issue issues m n _ why ask first (rest n log)

  pub mark_issues-AllMarks :
      (P Q : String → Type 0) (issues : List FoundIssue) (m : Marks) (log : Events)
      → All (λ issue. Triggered services settings issue → P issue.key) issues
      → All (λ issue. Asked services settings issue → Q issue.key) issues
      → AllMarks P Q issues m (mark_issues services settings issues m log)
  unfolding mark_issues
  mark_issues-AllMarks P Q [] m log why ask = record {
    grown = Grown-refl m;
    again = λ a. a;
    marked = tt;
    triggered = λ k h. inl h;
    retried = λ k h. inl h;
  }
  mark_issues-AllMarks P Q (issue ∷ issues) m log (why, whys) (ask, asks) =
      then-AllMarks P Q issue issues m (mark_issue services settings issue m log) why ask
        (mark_issue-Marks_of services settings issue m log)
        (λ n log'. mark_issues-AllMarks P Q issues n log' whys asks)
