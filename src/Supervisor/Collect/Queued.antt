-- ===== src/Supervisor/Collect/Queued.antt =====
-- What is found is queued.
use ai_workflows.Common.{
  ℕ, String, Bool, true, false, is_some, ◌≡◌, inl, inr, refl, sym, List, [], ◌∷◌, ◌||◌, ◌==◌, map,
  contains, eq_iff, ap, Bool-cases, if◌then◌else◌, ◌∙◌, ◌+◌,
}
use ai_workflows.Effects.{Result, ok, raised}
use ai_workflows.Effects.Preserves.{ok-injective}
use ai_workflows.Supervisor.Types.{Issue, seconds}
use ai_workflows.Supervisor.Requests.{Log}
use ai_workflows.Supervisor.Services.{Services}
use ai_workflows.Supervisor.WorkQueue.Item.{WorkItem, work_item_str}
use ai_workflows.Redis.SortedSet.{SortedSet, Documented}
use ai_workflows.Supervisor.WorkQueue.Queue
use ai_workflows.Supervisor.WorkQueue.Queue.{read_all}
use ai_workflows.Supervisor.WorkQueue.Queue.InQueue.{InQueue, InQueue-zadd}
use ai_workflows.Supervisor.Collect
use ai_workflows.Supervisor.Collect.{without_queued}
use ai_workflows.Supervisor.Collect.Schedules.{read_all-texts}

or_left : (a b : Bool) → a ≡ true → a || b ≡ true
or_left a b h = rw h refl

or_right : (a b : Bool) → b ≡ true → a || b ≡ true
or_right true b h = refl
or_right false b h = h

-- What is found is new or queued already.
found-cases :
    (found queued : List WorkItem) (n : String)
    → contains (map work_item_str found) n ≡ true
    → contains (map work_item_str queued) n ≡ false
    → contains (map work_item_str (without_queued found queued)) n ≡ true
found-cases [] queued n h absent = h
found-cases (i ∷ is) queued n h absent =
    by_test (work_item_str i == n) (contains (map work_item_str queued) (work_item_str i)) refl refl
      h (found-cases is queued n)
  where
    by_test :
        (same queued_too : Bool)
        → work_item_str i == n ≡ same
        → contains (map work_item_str queued) (work_item_str i) ≡ queued_too
        → same || contains (map work_item_str is) n ≡ true
        → (contains (map work_item_str is) n ≡ true
            → contains (map work_item_str queued) n ≡ false
            → contains (map work_item_str (without_queued is queued)) n ≡ true)
        → contains
            (map work_item_str
              (if queued_too then without_queued is queued else i ∷ without_queued is queued))
            n
          ≡ true
    by_test true true e f g rest =
        let there = ap (contains (map work_item_str queued)) ((eq_iff _ _).0 e) in cc
    by_test true false e f g rest = or_left _ _ e
    by_test false true e f g rest = rest g absent
    by_test false false e f g rest = or_right _ _ (rest g absent)

module _ (z : SortedSet) (documented : Documented z) where
  InQueue-zadd_all :
      (s : ℕ) (ms : List String) (n : String) (q : z.Set)
      → InQueue z n q
      → InQueue z n (Queue.zadd_all z s ms q)
  InQueue-zadd_all s [] n q h = h
  InQueue-zadd_all s (m ∷ ms) n q h =
      InQueue-zadd_all s ms n (z.zadd s m q) (InQueue-zadd z documented s m n q h)

  zadd_all-InQueue :
      (s : ℕ) (ms : List String) (n : String) (q : z.Set)
      → contains ms n ≡ true
      → InQueue z n (Queue.zadd_all z s ms q)
  zadd_all-InQueue s [] n q h = cc
  zadd_all-InQueue s (m ∷ ms) n q h =
      by_test (m == n) refl h (zadd_all-InQueue s ms n (z.zadd s m q))
    where
      by_test :
          (b : Bool)
          → m == n ≡ b
          → b || contains ms n ≡ true
          → (contains ms n ≡ true → InQueue z n (Queue.zadd_all z s ms (z.zadd s m q)))
          → InQueue z n (Queue.zadd_all z s ms (z.zadd s m q))
      by_test true same g rest =
          InQueue-zadd_all s ms n _
            (rw (sym ((eq_iff m n).0 same), documented.score-zadd s m q) refl)
      by_test false other g rest = rest g

  module _ (services : Services) (kerberos : Log → Result (Unit {0}))
      (current_issues : Log → Result (List Issue)) where
    schedule_new-InQueue :
        (now : ℕ) (found : List WorkItem) (r : Result (List WorkItem)) (q : z.Set) (n : String)
        → read_all (z.members q) ≡ r
        → (Collect.schedule_new z services kerberos current_issues now found r q).0 ≡ ok tt
        → contains (map work_item_str found) n ≡ true
        → InQueue z n (Collect.schedule_new z services kerberos current_issues now found r q).1
    unfolding Collect.schedule_new Queue.schedule_work_items
    schedule_new-InQueue now found (raised e) q n reads done h = cc
    schedule_new-InQueue now found (ok queued) q n reads done h =
        elim (Bool-cases (contains (map work_item_str queued) n)) [
          | inl there ↦
              InQueue-zadd_all (now + seconds 0) (map work_item_str (without_queued found queued)) n
                q
                (sym (documented.contains-members q n)
                  ∙ ap (λ ms. contains ms n) (sym (read_all-texts (z.members q) queued reads))
                  ∙ there)
          | inr absent ↦
              zadd_all-InQueue (now + seconds 0) _ n q (found-cases found queued n h absent)
        ]

    with_found-InQueue :
        (now : ℕ) (outcome : Result (List WorkItem) × Log) (found : List WorkItem) (q : z.Set)
        (n : String)
        → outcome.0 ≡ ok found
        → (Collect.with_found z services kerberos current_issues now outcome q).0 ≡ ok tt
        → contains (map work_item_str found) n ≡ true
        → InQueue z n (Collect.with_found z services kerberos current_issues now outcome q).1.0
    unfolding Collect.with_found Queue.get_all_work_items
    with_found-InQueue now (raised e, log) found q n is done h = cc
    with_found-InQueue now (ok items, log) found q n is done h =
        schedule_new-InQueue now items (read_all (z.members q)) q n refl done
          (rw (ok-injective is) h)

    -- After a collection that returns, every item that it found is in the queue.
    pub collect-queues_found :
        (q : z.Set) (log : Log) (found : List WorkItem) (n : String)
        → (Collect.collect_work_items z services kerberos current_issues log).0 ≡ ok found
        → (Collect.collect_and_schedule_work_items z services kerberos current_issues (q, log)).0
          ≡ ok tt
        → contains (map work_item_str found) n ≡ true
        → is_some (
            z.score
              (Collect.collect_and_schedule_work_items z services kerberos current_issues
                (q, log)).1.0
              n)
          ≡ true
    unfolding Collect.collect_and_schedule_work_items
    collect-queues_found q log found n is done h =
        with_found-InQueue (services.now log) _ found q n is done h
