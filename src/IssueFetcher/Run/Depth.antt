-- ===== src/IssueFetcher/Run/Depth.antt =====
-- The queues are filled up to the threshold, and not further.
use ai_workflows.Common.{
  ℕ, suc, ◌+◌, ◌-◌, ◌≤◌, String, Bool, true, false, Option, some, List, [], ◌∷◌, ◌≡◌, ◌≢◌, ◌⊎◌, inl,
  inr, refl, ◌∙◌, eqb, leb, arith, Bool-cases, eq_iff, contains,
}
use ai_workflows.Effects.{Result, ok, raised, after}
use ai_workflows.Redis.Lists.{RedisLists, Documented}
use ai_workflows.Redis.Hash.{RedisHash}
use ai_workflows.MergeQueue.Job.{Json}
use ai_workflows.IssueFetcher.Types.{FoundIssue, Settings, Events, Services}
use ai_workflows.IssueFetcher.Existing.{Schemas}
use ai_workflows.IssueFetcher.Mark.{Marks}
use ai_workflows.IssueFetcher.Push.{
  PushState, filed, file_task, file_unlocked, is_skipped, push_issue, push_issues, push_marked,
  push_issues_to_queue, target_queue, consume, label_to_consume,
}
use ai_workflows.IssueFetcher.Run.{
  get_queue_depth, push_cap, push_unless_full, then_consolidate, run_found, run,
}

two_queues : ◌≢◌ {A = String} "triage_queue" "triage_queue_todo"
two_queues = ground (arith, eq_iff "triage_queue" "triage_queue_todo")

two_queues_back : ◌≢◌ {A = String} "triage_queue_todo" "triage_queue"
two_queues_back = ground (arith, eq_iff "triage_queue_todo" "triage_queue")

module _ (r : RedisLists) (documented : Documented r) where
  open documented use {lrange-lpush, lrange-lpush_other}

  get_queue_depth-lpush :
      (user_triggered : Bool) (task : String) (lists : r.Lists)
      → get_queue_depth r (r.lpush (target_queue user_triggered) task lists)
        ≡ suc (get_queue_depth r lists)
  unfolding get_queue_depth
  get_queue_depth-lpush true task lists =
      rw
        (
          lrange-lpush "triage_queue_todo" task lists,
          lrange-lpush_other "triage_queue_todo" "triage_queue" task lists two_queues,
        )
        (omega arith)
  get_queue_depth-lpush false task lists =
      rw
        (
          lrange-lpush "triage_queue" task lists,
          lrange-lpush_other "triage_queue" "triage_queue_todo" task lists two_queues_back,
        )
        (omega arith)

  module _ (services : Services) (settings : Settings) (task_json : Events → String → Bool → String)
      (before most : ℕ) where
    -- The depth counts the pushes, which stay within the limit.
    abbrev Counted : PushState r → Type 0
    Counted s = (get_queue_depth r s.lists ≡ before + s.pushed) × (s.pushed ≤ most)

    abbrev Room : PushState r → Type 0
    Room s = suc s.pushed ≤ most

    filed-Counted :
        (u : Result (Unit {0})) (key : String) (user_triggered : Bool) (s : PushState r)
        → Counted s
        → Room s
        → Counted (filed r services settings task_json key user_triggered s u)
    filed-Counted (raised e) key user_triggered s h k = h
    filed-Counted (ok u) key user_triggered s (h, le) k =
        (get_queue_depth-lpush user_triggered _ s.lists ∙ omega arith, omega arith)

    file_unlocked-Counted :
        (held : Bool) (key : String) (user_triggered : Bool) (swap : Bool × Events)
        → (s : PushState r) → Counted s
        → Room s
        → Counted (file_unlocked r services settings task_json held key user_triggered swap s)
    unfolding file_task
    file_unlocked-Counted held key user_triggered (false, log) s h k = h
    file_unlocked-Counted true key user_triggered (true, log) s h k = h
    file_unlocked-Counted false key user_triggered (true, log) s h k =
        filed-Counted _ key user_triggered (record s { log = log }) h k

    push_issue-Counted :
        (marks : Marks) (locked : List String) (issue : FoundIssue) (s : PushState r)
        → Counted s
        → Room s
        → Counted (push_issue r services settings task_json marks locked issue s)
    unfolding push_issue
    push_issue-Counted marks locked issue s h k =
        elim (Bool-cases (is_skipped r services settings task_json marks issue s.existing)) [
          | inl skip ↦ rw skip h
          | inr taken ↦ rw taken (
              file_unlocked-Counted (contains locked issue.key) issue.key
                (contains marks.user_triggered issue.key)
                (consume r services settings task_json issue.key
                  (label_to_consume r services settings task_json marks issue.key) s.log)
                s h k)
        ]

    room_left : (n : ℕ) → leb most n ≡ false → suc n ≤ most
    room_left n h = ground arith

    push_issues-Counted :
        (marks : Marks) (locked : List String) (issues : List FoundIssue) (s : PushState r)
        → Counted s
        → Counted (push_issues r services settings task_json (some most) marks locked issues s)
    unfolding push_issues
    push_issues-Counted marks locked [] s h = h
    push_issues-Counted marks locked (issue ∷ issues) s h = elim (Bool-cases (leb most s.pushed)) [
      | inl reached ↦ rw reached h
      | inr more ↦ rw more (
          push_issues-Counted marks locked issues _
            (push_issue-Counted marks locked issue s h (room_left s.pushed more)))
    ]

    -- The depth after a push that stays within the limit.
    abbrev Within : r.Lists → Type 0
    Within lists = get_queue_depth r lists ≤ before + most

    push_marked-Within :
        (locked : List String) (issues : List FoundIssue) (lists : r.Lists) (marks : Result Marks)
        → (log : Events) → get_queue_depth r lists ≡ before
        → Within
            (push_marked r services settings task_json
              (some most)
              locked
              issues
              lists
              marks
              log).1.0
    push_marked-Within locked issues lists (raised e) log h = omega arith
    push_marked-Within locked issues lists (ok marks) log h =
        let (counted, bound) =
          push_issues-Counted marks locked issues
            (record { existing = marks.existing; pushed = 0; lists = lists; log = log })
            (omega arith, omega arith) in
        omega arith

    push_issues_to_queue-Within :
        (schemas : Schemas) (lrange : String → Result (List String)) (locked : List String)
        → (issues : List FoundIssue) (lists : r.Lists) (log : Events)
        → get_queue_depth r lists ≡ before
        → Within
            (push_issues_to_queue r services settings task_json schemas lrange locked issues
              (some most)
              (lists, log)).1.0
    unfolding push_issues_to_queue
    push_issues_to_queue-Within schemas lrange locked [] lists log h = omega arith
    push_issues_to_queue-Within schemas lrange locked (issue ∷ issues) lists log h =
        push_marked-Within locked (issue ∷ issues) lists _ _ h

module _ (r : RedisLists) (threshold : ℕ) where
  -- The queues are not filled past the threshold.
  abbrev pub IsBounded : r.Lists → r.Lists → Type 0
  IsBounded before now =
      (get_queue_depth r now ≤ threshold) ⊎ (get_queue_depth r now ≡ get_queue_depth r before)

module _ (r : RedisLists) (documented : Documented r) (h : RedisHash) (json : Json)
    (services : Services) (settings : Settings) (task_json : Events → String → Bool → String)
    (schemas : Schemas) (locked : r.Lists → List String) (answer : Events → Result (Unit {0}))
    (threshold : ℕ) where
  filled : (d n : ℕ) → eqb (threshold - d) 0 ≡ false → n ≤ d + (threshold - d) → n ≤ threshold
  filled d n some_room le = ground arith

  push_unless_full-IsBounded :
      (issues : List FoundIssue) (lists : r.Lists) (log : Events)
      → IsBounded r threshold lists
          (push_unless_full r h json services settings task_json schemas locked answer issues
            (some (threshold - get_queue_depth r lists))
            (lists, log)).1.0
  unfolding push_unless_full
  push_unless_full-IsBounded issues lists log =
      elim (Bool-cases (eqb (threshold - get_queue_depth r lists) 0)) [
        | inl full ↦ rw full (inr refl)
        | inr free ↦ rw free (
            inl (
              filled (get_queue_depth r lists) _ free (
                push_issues_to_queue-Within r documented services settings task_json
                  (get_queue_depth r lists) (threshold - get_queue_depth r lists) schemas
                  (λ queue. ok (r.lrange lists queue)) (locked lists) issues lists log refl)))
      ]

  consolidated :
      (issues : List FoundIssue) (hash : h.Hash) (lists : r.Lists)
      → (pushed : Result ℕ × (r.Lists × Events)) → IsBounded r threshold lists pushed.1.0
      → IsBounded r threshold lists
          (then_consolidate r h json services settings task_json schemas locked answer issues hash
            pushed).1.0
  consolidated issues hash lists (raised e, (lists', log)) k = k
  consolidated issues hash lists (ok n, (lists', log)) k = k

  capped :
      (issues : List FoundIssue) (lists : r.Lists) (log : Events) (limit : Option ℕ)
      → limit ≡ some threshold
      → IsBounded r threshold lists
          (push_unless_full r h json services settings task_json schemas locked answer issues
            (push_cap r limit lists)
            (lists, log)).1.0
  capped issues lists log limit e = rw e (push_unless_full-IsBounded issues lists log)

  run_found-IsBounded :
      (issues : List FoundIssue) (lists : r.Lists) (hash : h.Hash) (log : Events)
      → settings.queue_depth_threshold ≡ some threshold
      → IsBounded r threshold lists
          (run_found r h json services settings task_json schemas locked answer issues
            (lists, (hash, log))).1.0
  run_found-IsBounded [] lists hash log e = inr refl
  run_found-IsBounded (issue ∷ issues) lists hash log e =
      consolidated (issue ∷ issues) hash lists _
        (capped (issue ∷ issues) lists log settings.queue_depth_threshold e)

  -- With a threshold for the depth, a run of the fetcher leaves the two triage queues together at
  -- most as long as the threshold, or exactly as long as they were, whether it returns or raises.
  pub run-IsBounded :
      (search_issues : Events → Result (List FoundIssue)) (lists : r.Lists) (hash : h.Hash)
      → (log : Events) → settings.queue_depth_threshold ≡ some threshold
      → IsBounded r threshold lists
          (run r h json services settings task_json schemas locked answer search_issues
            (lists, (hash, log))).1.0
  unfolding run
  run-IsBounded search_issues lists hash log e = found (search_issues log)
    where
      found :
          (issues : Result (List FoundIssue))
          → IsBounded r threshold lists
              (after
                (run_found r h json services settings task_json schemas locked answer)
                issues
                (lists, (hash, log))).1.0
      found (ok issues) = run_found-IsBounded issues lists hash log e
      found (raised x) = inr refl
