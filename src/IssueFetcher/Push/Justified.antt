-- ===== src/IssueFetcher/Push/Justified.antt =====
-- Why a task is filed.
use ai_workflows.Common.{
  Some, String, Bool, true, false, Option, none, some, List, [], ◌∷◌, ◌≡◌, ◌⊎◌, inl, inr, refl,
  contains, ◌==◌, if◌then◌else◌, Bool-cases, All,
}
use ai_workflows.Effects.{Result, ok, raised}
use ai_workflows.Constants.{JiraLabel, label}
use ai_workflows.Redis.Lists.{RedisLists}
use ai_workflows.IssueFetcher.Types.{
  FoundIssue, Settings, edit_labels, post_comment, enqueue, Events, Services, request,
  edit_jira_labels, went_through, try_edit,
}
use ai_workflows.IssueFetcher.Mark.Meaning.{Triggered, Asked, is_labelled}
use ai_workflows.IssueFetcher.Push.{
  PushState, consume, filed, file_task, file_unlocked, target_queue,
}

module _ (services : Services) (settings : Settings) (locked existing : List String)
    (issues : List FoundIssue) where
  -- The label of a trigger was exchanged for `ymir_triage_in_progress` by the change just before,
  -- or would have been but for the dry run.
  abbrev pub Swapped : String → String → Events → Type 0
  Swapped key consumed earlier =
      (settings.dry_run ≡ true)
      ⊎ ((older : Events) × (earlier
            ≡ edit_labels key (label JiraLabel.triage_in_progress ∷ []) (consumed ∷ []) ∷ older))

  -- A maintainer asked for the run, another run was asked for, or the issue is new: its key is in
  -- no queue, and no issue of the key has a label of Ymir.
  abbrev pub Cause : Bool → String → Events → Type 0
  Cause user_triggered key earlier =
      ((user_triggered ≡ true)
        × Some (λ issue. (issue.key ≡ key) × Triggered services settings issue) issues
        × Swapped key (label JiraLabel.todo) earlier)
      ⊎ (((user_triggered ≡ false)
            × Some (λ issue. (issue.key ≡ key) × Asked services settings issue) issues
            × Swapped key (label JiraLabel.retry_needed) earlier)
          ⊎ ((user_triggered ≡ false)
              × (contains existing key ≡ false)
              × All (λ issue. (issue.key == key ≡ false) ⊎ (is_labelled issue ≡ false)) issues))

  -- Every task filed so far has a cause, is in the queue of its kind, and is of no locked issue.
  abbrev pub Justified : Events → Type 0
  Justified [] = Unit
  Justified (edit_labels key added removed ∷ earlier) = Justified earlier
  Justified (post_comment key comment ∷ earlier) = Justified earlier
  Justified (enqueue queue key user_triggered ∷ earlier) =
      (contains locked key ≡ false)
      × (queue ≡ target_queue user_triggered)
      × Cause user_triggered key earlier
      × Justified earlier

  abbrev pub Swap : String → Option String → Events → Type 0
  Swap key none log = Unit
  Swap key (some consumed) log = Swapped key consumed log

  abbrev pub Consumed : String → Option String → Bool × Events → Type 0
  Consumed key o (false, log) = Justified log
  Consumed key o (true, log) = Justified log × Swap key o log

  swap_answered :
      (r : Result (Unit {0})) (key consumed : String) (log : Events)
      → Justified log
      → Consumed key (some consumed) (
          went_through
            (r, edit_labels key (label JiraLabel.triage_in_progress ∷ []) (consumed ∷ []) ∷ log))
  swap_answered (ok u) key consumed log h = (h, inr (log, refl))
  swap_answered (raised e) key consumed log h = h

  module _ (r : RedisLists) (task_json : Events → String → Bool → String) where
    swap_if :
        (b : Bool) (key consumed : String) (log : Events)
        → settings.dry_run ≡ b
        → Justified log
        → Consumed key (some consumed) (
            if b
            then (true, log)
            else (went_through (
                edit_jira_labels services key
                  (label JiraLabel.triage_in_progress ∷ [])
                  (consumed ∷ [])
                  log)))
    unfolding edit_jira_labels request
    swap_if true key consumed log dry h = (h, inl dry)
    swap_if false key consumed log dry h = swap_answered _ key consumed log h

    pub consume-Consumed :
        (key : String) (o : Option String) (log : Events)
        → Justified log
        → Consumed key o (consume r services settings task_json key o log)
    unfolding consume try_edit
    consume-Consumed key none log h = (h, tt)
    consume-Consumed key (some consumed) log h = swap_if settings.dry_run key consumed log refl h

    filed-Justified :
        (u : Result (Unit {0})) (key : String) (user_triggered : Bool) (s : PushState r)
        → contains locked key ≡ false
        → Cause user_triggered key s.log
        → Justified s.log
        → Justified (filed r services settings task_json key user_triggered s u).log
    filed-Justified (raised e) key user_triggered s free why h = h
    filed-Justified (ok u) key user_triggered s free why h = (free, refl, why, h)

    pub file_unlocked-Justified :
        (key : String) (user_triggered : Bool) (o : Option String) (swap : Bool × Events)
        → (s : PushState r) → Consumed key o swap
        → ((log : Events) → Swap key o log → Cause user_triggered key log)
        → Justified
            (file_unlocked r services settings task_json
              (contains locked key)
              key
              user_triggered
              swap
              s).log
    unfolding file_task
    file_unlocked-Justified key user_triggered o (false, log) s h why = h
    file_unlocked-Justified key user_triggered o (true, log) s (h, swap) why =
        elim (Bool-cases (contains locked key)) [
          | inl held ↦ rw held h
          | inr free ↦ rw free (filed-Justified _ key user_triggered _ free (why log swap) h)
        ]
