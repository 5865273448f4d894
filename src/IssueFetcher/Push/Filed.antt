-- ===== src/IssueFetcher/Push/Filed.antt =====
-- The loop files only tasks that have a cause.
use ai_workflows.Common.{
  Some, ℕ, String, Bool, true, false, ◌&&◌, ◌||◌, not, Option, List, [], ◌∷◌, ◌≡◌, ◌⊎◌, inl, inr,
  refl, sym, ◌∙◌, subst, contains, ◌==◌, Bool-cases, or_right, eq_iff, All,
}
use ai_workflows.Effects.{Result, ok, raised}
use ai_workflows.Redis.Lists.{RedisLists}
use ai_workflows.IssueFetcher.Types.{FoundIssue, Settings, Events, Services}
use ai_workflows.IssueFetcher.Mark.{Marks}
use ai_workflows.IssueFetcher.Mark.Meaning.{Triggered, Asked, Marked, is_labelled}
use ai_workflows.IssueFetcher.Mark.Meaning.Loop.{AllMarked, AllMarks}
use ai_workflows.IssueFetcher.Push.Justified.{
  Cause, Justified, Swap, consume-Consumed, file_unlocked-Justified,
}
use ai_workflows.IssueFetcher.Push.{
  is_reached, PushState, label_to_consume, consume, filed, file_task, file_unlocked, is_skipped,
  push_issue, push_issues, push_marked, no_marks,
}

impossible : false ≡ true → ⊥
impossible h = cc

or_false_right : (a b : Bool) → a || b ≡ false → b ≡ false
or_false_right true b h = cc
or_false_right false b h = h

module _ (services : Services) (settings : Settings) (locked existing : List String)
    (issues : List FoundIssue) where
  module _ (r : RedisLists) (task_json : Events → String → Bool → String) where
    -- What is known of the marks when tasks are filed.
    abbrev Sound : Marks → Type 0
    Sound marks =
        AllMarked services settings
          (λ k. Some (λ issue. (issue.key ≡ k) × Triggered services settings issue) issues)
          (λ k. Some (λ issue. (issue.key ≡ k) × Asked services settings issue) issues) issues
          (no_marks r services settings task_json existing) marks

    no_mark :
        (key : String) (marks : Marks)
        → contains marks.existing key ≡ false
        → contains marks.user_triggered key ≡ false
        → contains marks.retry_needed key ≡ false
        → Marked key marks
        → ⊥
    no_mark key marks a b c (inl h) = cc
    no_mark key marks a b c (inr (inl h)) = cc
    no_mark key marks a b c (inr (inr h)) = cc

    Triggered-by :
        {marks : Marks}
        → Sound marks
        → (k : String) → contains marks.user_triggered k ≡ true
        → Some (λ issue. (issue.key ≡ k) × Triggered services settings issue) issues
    Triggered-by sound k h = elim (sound.triggered k h) [
      | inl before ↦ absurd (impossible before)
      | inr some_issue ↦ some_issue
    ]

    Asked-by :
        {marks : Marks}
        → Sound marks
        → (k : String) → contains marks.retry_needed k ≡ true
        → Some (λ issue. (issue.key ≡ k) × Asked services settings issue) issues
    Asked-by sound k h = elim (sound.retried k h) [
      | inl before ↦ absurd (impossible before)
      | inr some_issue ↦ some_issue
    ]

    not_true : (a : Bool) → (a ≡ true → ⊥) → a ≡ false
    not_true true h = absurd (h refl)
    not_true false h = refl

    old_free :
        {marks : Marks}
        → Sound marks
        → (k : String) → contains marks.existing k ≡ false
        → contains existing k ≡ false
    old_free sound k h =
        not_true _
          (λ old. let now_there = sound.grown.existing k old in impossible (sym h ∙ now_there))

    -- A key without a trigger that is not passed over is new.
    new_key :
        (marks : Marks) (key : String) (known : List String)
        → Sound marks
        → ((k : String) → contains marks.existing k ≡ true → contains known k ≡ true)
        → contains marks.user_triggered key ≡ false
        → contains marks.retry_needed key ≡ false
        → (modular : Bool)
        → modular || (contains known key && not (contains marks.retry key)) ≡ false
        → contains marks.existing key ≡ false
    new_key marks key known sound grows a b modular taken = not_true _ (λ old.
        let there = grows key old in
        let no_retry = not_true (contains marks.retry key) (λ again.
          elim (sound.again (λ k none_there. absurd (impossible none_there)) key again) [
            | inl h ↦ impossible (sym a ∙ h)
            | inr h ↦ impossible (sym b ∙ h)
          ]) in
        let part = rw (there, no_retry) at (or_false_right modular _ taken) in
        impossible (sym part))

    key-Marked :
        (key : String) (marks : Marks) (all : List FoundIssue)
        → contains marks.existing key ≡ false
        → contains marks.user_triggered key ≡ false
        → contains marks.retry_needed key ≡ false
        → All (λ issue. (is_labelled issue ≡ false) ⊎ Marked issue.key marks) all
        → All (λ issue. (issue.key == key ≡ false) ⊎ (is_labelled issue ≡ false)) all
    key-Marked key marks [] a b c h = tt
    key-Marked key marks (issue ∷ all) a b c (inl bare, h) =
        (inr bare, key-Marked key marks all a b c h)
    key-Marked key marks (issue ∷ all) a b c (inr marked, h) = (
      elim (Bool-cases (issue.key == key)) [
        | inr other ↦ inl other
        | inl same ↦ absurd (
            no_mark key marks a b c
              (subst (λ k. Marked k marks) ((eq_iff issue.key key).0 same) marked))
      ],
      key-Marked key marks all a b c h,
    )

    -- Why an issue that is not passed over may be filed, once its trigger has been consumed.
    cause :
        (marks : Marks) (issue : FoundIssue) (known : List String) (log : Events)
        → Sound marks
        → ((k : String) → contains marks.existing k ≡ true → contains known k ≡ true)
        → is_skipped r services settings task_json marks issue known ≡ false
        → Swap services settings locked existing issues issue.key
            (label_to_consume r services settings task_json marks issue.key)
            log
        → Cause services settings locked existing issues
            (contains marks.user_triggered issue.key)
            issue.key
            log
    cause marks issue known log sound grows taken swap =
        elim (Bool-cases (contains marks.user_triggered issue.key)) [
          | inl user ↦ rw user (inl (refl, Triggered-by sound issue.key user, (rw user at swap)))
          | inr other ↦ elim (Bool-cases (contains marks.retry_needed issue.key)) [
            | inl again ↦
                rw other
                  (inr (inl (refl, Asked-by sound issue.key again, (rw (other, again) at swap))))
            | inr fresh ↦ rw other (
                inr (
                  inr (
                    refl,
                    old_free sound issue.key
                        (new_key marks issue.key known sound grows other fresh _ taken),
                    key-Marked issue.key marks issues
                        (new_key marks issue.key known sound grows other fresh _ taken) other fresh
                        sound.marked,
                  )))
          ]
        ]

    -- The invariant of the loop.
    abbrev Filed : Marks → PushState r → Type 0
    Filed marks s =
        Justified services settings locked existing issues s.log
        × ((k : String) → contains marks.existing k ≡ true → contains s.existing k ≡ true)

    filed-grows :
        (u : Result (Unit {0})) (key : String) (user_triggered : Bool) (s : PushState r)
        → (k : String) → contains s.existing k ≡ true
        → contains (filed r services settings task_json key user_triggered s u).existing k ≡ true
    filed-grows (raised e) key user_triggered s k h = h
    filed-grows (ok u) key user_triggered s k h = or_right (key == k) _ h

    file_unlocked-grows :
        (held : Bool) (key : String) (user_triggered : Bool) (swap : Bool × Events)
        → (s : PushState r) (k : String) → contains s.existing k ≡ true
        → contains
            (file_unlocked r services settings task_json held key user_triggered swap s).existing
            k
          ≡ true
    unfolding file_task
    file_unlocked-grows held key user_triggered (false, log) s k h = h
    file_unlocked-grows true key user_triggered (true, log) s k h = h
    file_unlocked-grows false key user_triggered (true, log) s k h =
        filed-grows _ key user_triggered (record s { log = log }) k h

    push_issue-Filed :
        (marks : Marks) (issue : FoundIssue) (s : PushState r)
        → Sound marks
        → Filed marks s
        → Filed marks (push_issue r services settings task_json marks locked issue s)
    unfolding push_issue
    push_issue-Filed marks issue s sound (h, grows) =
        elim (Bool-cases (is_skipped r services settings task_json marks issue s.existing)) [
          | inl skip ↦ rw skip (h, grows)
          | inr taken ↦ rw taken (
            file_unlocked-Justified services settings locked existing issues r task_json issue.key
                (contains marks.user_triggered issue.key)
                (label_to_consume r services settings task_json marks issue.key)
                (consume r services settings task_json issue.key
                  (label_to_consume r services settings task_json marks issue.key) s.log)
                s
                (consume-Consumed services settings locked existing issues r task_json issue.key
                  (label_to_consume r services settings task_json marks issue.key) s.log h)
                (λ log swap. cause marks issue s.existing log sound grows taken swap),
            λ k old.
                file_unlocked-grows _ issue.key _
                  (consume r services settings task_json issue.key
                    (label_to_consume r services settings task_json marks issue.key) s.log)
                  s k (grows k old),
          )
        ]

    push_issues-Filed :
        (limit : Option ℕ) (marks : Marks) (all : List FoundIssue) (s : PushState r)
        → Sound marks
        → Filed marks s
        → Filed marks (push_issues r services settings task_json limit marks locked all s)
    unfolding push_issues
    push_issues-Filed limit marks [] s sound h = h
    push_issues-Filed limit marks (issue ∷ all) s sound h =
        elim (Bool-cases (is_reached limit s.pushed)) [
          | inl reached ↦ rw reached h
          | inr more ↦
              rw more
                (push_issues-Filed limit marks all _ sound (push_issue-Filed marks issue s sound h))
        ]

    pub push_marked-Justified :
        (limit : Option ℕ) (lists : r.Lists) (marks : Result Marks) (log : Events)
        → AllMarks services settings
            (λ k. Some (λ issue. (issue.key ≡ k) × Triggered services settings issue) issues)
            (λ k. Some (λ issue. (issue.key ≡ k) × Asked services settings issue) issues)
            issues
            (no_marks r services settings task_json existing)
            (marks, log)
        → Justified services settings locked existing issues log
        → Justified services settings locked existing issues
            (push_marked r services settings task_json limit locked issues lists marks log).1.1
    push_marked-Justified limit lists (raised e) log sound h = h
    push_marked-Justified limit lists (ok marks) log sound h =
        (push_issues-Filed limit marks issues _ sound (h, λ k old. old)).0
