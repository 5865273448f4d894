-- ===== src/IssueFetcher/Mark/Meaning.antt =====
-- What the marks say: which issues are marked, and why one is marked as triggered by a user.
pub mod Loop
use ai_workflows.Common.{
  String, Bool, true, false, ◌&&◌, not, Option, none, some, List, [], ◌∷◌, ◌≡◌, ◌⊎◌, inl, inr, refl,
  subst, any, contains, ◌==◌, if◌then◌else◌, Bool-cases, or_left, or_right, or_cases, eq_iff,
  eq_refl, All, Some, of_not-true,
}
use ai_workflows.Effects.{Result, ok, raised, after}
use ai_workflows.Constants.{JiraLabel, label}
use ai_workflows.IssueFetcher.Types.{
  FoundIssue, Settings, Events, Services, is_request_exception, try_edit,
}
use ai_workflows.IssueFetcher.Author.{label_added_by_rh_employee}
use ai_workflows.IssueFetcher.Mark.{
  Marks, mark_existing, mark_user, mark_retry, ymir_labels, has_in_progress, mark_todo, mark_stale,
  mark_labels, mark_in_flight, mark_issue, mark_issues, in_flight_labels, is_blocking,
  is_label_stale, stale_among, find_stale_in_flight_label,
}

-- The marks that an issue's key may have.
abbrev pub Marked : String → Marks → Type 0
Marked key m =
    (contains m.existing key ≡ true)
    ⊎ ((contains m.user_triggered key ≡ true) ⊎ (contains m.retry_needed key ≡ true))

abbrev pub is_labelled : FoundIssue → Bool
is_labelled issue = not (issue.key == "") && any (λ l. true) (ymir_labels issue.labels)

-- A key whose run is repeated has a trigger.
abbrev pub Again : Marks → Type 0
Again m =
    (k : String)
    → contains m.retry k ≡ true
    → (contains m.user_triggered k ≡ true) ⊎ (contains m.retry_needed k ≡ true)

-- Marks are only added.
pub record Grown (m n : Marks) : Type 0 where
  pub existing : (k : String) → contains m.existing k ≡ true → contains n.existing k ≡ true
  pub user : (k : String) → contains m.user_triggered k ≡ true → contains n.user_triggered k ≡ true
  pub retry : (k : String) → contains m.retry_needed k ≡ true → contains n.retry_needed k ≡ true

pub Grown-Marked : {m n : Marks} (k : String) → Grown m n → Marked k m → Marked k n
Grown-Marked k g (inl h) = inl (g.existing k h)
Grown-Marked k g (inr (inl h)) = inr (inl (g.user k h))
Grown-Marked k g (inr (inr h)) = inr (inr (g.retry k h))

pub Grown-refl : (m : Marks) → Grown m m
Grown-refl m = record { existing = λ k h. h; user = λ k h. h; retry = λ k h. h }

pub Grown-trans : {m n o : Marks} → Grown m n → Grown n o → Grown m o
Grown-trans g h = record {
  existing = λ k p. h.existing k (g.existing k p);
  user = λ k p. h.user k (g.user k p);
  retry = λ k p. h.retry k (g.retry k p);
}

here : (key : String) (keys : List String) → contains (key ∷ keys) key ≡ true
here key keys = or_left (key == key) (contains keys key) (eq_refl key)

both_of : (a b : Bool) → a && b ≡ true → (a ≡ true) × (b ≡ true)
both_of true b h = (refl, h)
both_of false b h = cc

and_false : (a b : Bool) → b ≡ false → a && b ≡ false
and_false true b h = h
and_false false b h = refl

unlabelled :
    (issue : FoundIssue)
    → any (λ l. true) (ymir_labels issue.labels) ≡ false
    → is_labelled issue ≡ false
unlabelled issue h = and_false (not (issue.key == "")) _ h

-- A label of work in progress that no other label keeps.
abbrev pub Unkept : List String → JiraLabel → Type 0
Unkept labels l = (contains labels (label l) ≡ true) × (any (is_blocking (label l)) labels ≡ false)

stale_among-Unkept :
    (among : List JiraLabel) (stale : Bool) (labels : List String) (l : String)
    → stale_among among stale labels ≡ some l
    → Some (Unkept labels) among × (stale ≡ true)
stale_among-Unkept [] stale labels l h = cc
stale_among-Unkept (in_flight ∷ rest) stale labels l h =
    elim (Bool-cases (
      contains labels (label in_flight)
      && not (any (is_blocking (label in_flight)) labels)
      && stale)) [
        | inl found ↦
            let (both, old) =
              both_of
                (contains labels (label in_flight)
                  && not (any (is_blocking (label in_flight)) labels))
                stale found in
            let (a, b) =
              both_of (contains labels (label in_flight))
                (not (any (is_blocking (label in_flight)) labels)) both in
            (inl (a, of_not-true _ b), old)
        | inr other ↦
            let (there, old) = stale_among-Unkept rest stale labels l (rw other at h) in
            (inr there, old)
      ]

module _ (services : Services) (settings : Settings) where
  -- Another run of an issue is asked for by the label, with no work in progress, or by a label of
  -- work in progress that no other label keeps while the issue has not changed for too long.
  abbrev pub Asked : FoundIssue → Type 0
  Asked issue =
      ((contains (ymir_labels issue.labels) (label JiraLabel.retry_needed) ≡ true)
        × (has_in_progress (ymir_labels issue.labels) ≡ false))
      ⊎ (Some (Unkept (ymir_labels issue.labels)) in_flight_labels
          × ((log : Events) × (is_label_stale (services.now log) settings.stale_label_threshold
                  issue.updated
                ≡ true)))

  -- The trigger of an issue: the label, no work in progress, and who added the label.
  abbrev pub Triggered : FoundIssue → Type 0
  Triggered issue =
      (contains (ymir_labels issue.labels) (label JiraLabel.todo) ≡ true)
      × (has_in_progress (ymir_labels issue.labels) ≡ false)
      × ((log : Events) × (label_added_by_rh_employee services log issue.key (label JiraLabel.todo)
            ≡ ok true))

  -- What one issue does to the marks.
  pub record Marking (issue : FoundIssue) (m n : Marks) : Type 0 where
    pub grown : Grown m n
    pub again : Again m → Again n
    pub marked : is_labelled issue ≡ true → Marked issue.key n
    pub triggered :
        (k : String)
        → contains n.user_triggered k ≡ true
        → (contains m.user_triggered k ≡ true) ⊎ ((issue.key ≡ k) × Triggered issue)
    pub retried :
        (k : String)
        → contains n.retry_needed k ≡ true
        → (contains m.retry_needed k ≡ true) ⊎ ((issue.key ≡ k) × Asked issue)

  abbrev pub MarksOf : FoundIssue → Marks → Result Marks × Events → Type 0
  MarksOf issue m (raised e, log) = Unit
  MarksOf issue m (ok n, log) = Marking issue m n

  existing-Marking : (issue : FoundIssue) (m : Marks) → Marking issue m (mark_existing issue.key m)
  existing-Marking issue m = record {
    grown = record {
      existing = λ k h. or_right (issue.key == k) _ h;
      user = λ k h. h;
      retry = λ k h. h;
    };
    again = λ a. a;
    marked = λ h. inl (here issue.key m.existing);
    triggered = λ k h. inl h;
    retried = λ k h. inl h;
  }

  retry-Marking :
      (issue : FoundIssue) (m : Marks) → Asked issue → Marking issue m (mark_retry issue.key m)
  retry-Marking issue m why = record {
    grown = record {
      existing = λ k h. h;
      user = λ k h. h;
      retry = λ k h. or_right (issue.key == k) _ h;
    };
    again = λ a k h. elim (or_cases (issue.key == k) (contains m.retry k) h) [
      | inl same ↦ inr (or_left _ _ same)
      | inr before ↦ elim (a k before) [
        | inl user ↦ inl user
        | inr needed ↦ inr (or_right (issue.key == k) _ needed)
      ]
    ];
    marked = λ h. inr (inr (here issue.key m.retry_needed));
    triggered = λ k h. inl h;
    retried = λ k h. elim (or_cases (issue.key == k) (contains m.retry_needed k) h) [
      | inl same ↦ inr ((eq_iff issue.key k).0 same, why)
      | inr before ↦ inl before
    ];
  }

  user-Marking :
      (issue : FoundIssue) (m : Marks) → Triggered issue → Marking issue m (mark_user issue.key m)
  user-Marking issue m why = record {
    grown = record {
      existing = λ k h. h;
      user = λ k h. or_right (issue.key == k) _ h;
      retry = λ k h. h;
    };
    again = λ a k h. elim (or_cases (issue.key == k) (contains m.retry k) h) [
      | inl same ↦ inl (or_left _ _ same)
      | inr before ↦ elim (a k before) [
        | inl user ↦ inl (or_right (issue.key == k) _ user)
        | inr needed ↦ inr needed
      ]
    ];
    marked = λ h. inr (inl (here issue.key m.user_triggered));
    triggered = λ k h. elim (or_cases (issue.key == k) (contains m.user_triggered k) h) [
      | inl same ↦ inr ((eq_iff issue.key k).0 same, why)
      | inr before ↦ inl before
    ];
    retried = λ k h. inl h;
  }

  same-Marking : (issue : FoundIssue) (m : Marks) → is_labelled issue ≡ false → Marking issue m m
  same-Marking issue m h = record {
    grown = Grown-refl m;
    again = λ a. a;
    marked = λ k. cc;
    triggered = λ k t. inl t;
    retried = λ k t. inl t;
  }

  mark_todo-Marks_of :
      (issue : FoundIssue) (r : Result Bool) (m : Marks) (log : Events)
      → (r ≡ ok true → Triggered issue)
      → MarksOf issue m (mark_todo services settings issue.key r m log)
  unfolding mark_todo
  mark_todo-Marks_of issue (ok true) m log why = user-Marking issue m (why refl)
  mark_todo-Marks_of issue (ok false) m log why = existing-Marking issue m
  mark_todo-Marks_of issue (raised e) m log why = elim (Bool-cases (is_request_exception e)) [
    | inl skip ↦ rw skip (existing-Marking issue m)
    | inr fatal ↦ rw fatal tt
  ]

  either-Marking :
      (issue : FoundIssue) (m : Marks) (b : Bool)
      → Asked issue
      → Marking issue m (if b then mark_retry issue.key m else mark_existing issue.key m)
  either-Marking issue m true why = retry-Marking issue m why
  either-Marking issue m false why = existing-Marking issue m

  mark_labels-Marking :
      (issue : FoundIssue) (m : Marks)
      → Marking issue m (mark_labels issue.key (ymir_labels issue.labels) m)
  unfolding mark_labels
  mark_labels-Marking issue m =
      elim (Bool-cases (contains (ymir_labels issue.labels) (label JiraLabel.retry_needed))) [
        | inl again ↦ elim (Bool-cases (has_in_progress (ymir_labels issue.labels))) [
          | inl running ↦ rw (again, running) (existing-Marking issue m)
          | inr idle ↦ rw (again, idle) (retry-Marking issue m (inl (again, idle)))
        ]
        | inr plain ↦ elim (Bool-cases (any (λ l. true) (ymir_labels issue.labels))) [
          | inl labelled ↦ rw (plain, labelled) (existing-Marking issue m)
          | inr bare ↦ rw (plain, bare) (same-Marking issue m (unlabelled issue bare))
        ]
      ]

  mark_in_flight-Marks_of :
      (issue : FoundIssue) (stale : Option String) (m : Marks) (log : Events)
      → ((l : String) → stale ≡ some l → Asked issue)
      → MarksOf issue m
          (mark_in_flight services settings issue.key (ymir_labels issue.labels) stale m log)
  unfolding mark_in_flight mark_stale
  mark_in_flight-Marks_of issue none m log why = mark_labels-Marking issue m
  mark_in_flight-Marks_of issue (some stale_label) m log why =
      elim (Bool-cases (contains m.existing issue.key)) [
        | inl queued ↦ rw queued (mark_labels-Marking issue m)
        | inr free ↦ rw free (
            either-Marking issue m
              (try_edit services settings issue.key (label JiraLabel.retry_needed ∷ [])
                (stale_label ∷ []) log).0
              (why stale_label refl))
      ]

  pub mark_issue-Marks_of :
      (issue : FoundIssue) (m : Marks) (log : Events)
      → MarksOf issue m (mark_issue services settings issue m log)
  unfolding mark_issue find_stale_in_flight_label
  mark_issue-Marks_of issue m log = elim (Bool-cases (issue.key == "")) [
    | inl nameless ↦ rw nameless (same-Marking issue m (rw nameless refl))
    | inr named ↦
        elim (Bool-cases (
          contains (ymir_labels issue.labels) (label JiraLabel.todo)
          && not (has_in_progress (ymir_labels issue.labels)))) [
            | inl todo ↦
                rw (named, todo)
                  (mark_todo-Marks_of issue _ m log
                    (λ e. let (a, b) = both_of _ _ todo in (a, of_not-true _ b, (log, e))))
            | inr other ↦
                rw (named, other)
                  (mark_in_flight-Marks_of issue _ m log (λ l e.
                    let (there, old) =
                      stale_among-Unkept in_flight_labels
                        (is_label_stale (services.now log) settings.stale_label_threshold
                          issue.updated)
                        (ymir_labels issue.labels) l e in
                    inr (there, (log, old))))
          ]
  ]
