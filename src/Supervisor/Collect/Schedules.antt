-- ===== src/Supervisor/Collect/Schedules.antt =====
-- Collecting work does not disturb the items that wait already.
use ai_workflows.Common.{
  ℕ, ◌+◌, String, Bool, true, false, some, is_some, ◌≡◌, ◌≢◌, inl, inr, refl, sym, List, [], ◌∷◌,
  ◌||◌, ◌==◌, map, contains, eq_iff, ap, Bool-cases, ◌∙◌, if◌then◌else◌,
}
use ai_workflows.Effects.{Result, ok, raised}
use ai_workflows.Effects.Preserves.{ok-injective}
use ai_workflows.Supervisor.Types.{Issue, seconds}
use ai_workflows.Supervisor.Requests.{Log}
use ai_workflows.Supervisor.Services.{Services}
use ai_workflows.Supervisor.WorkQueue.Item.{WorkItem, work_item_str, from_str}
use ai_workflows.Supervisor.WorkQueue.Item.RoundTrip.{work_item_str-from_str}
use ai_workflows.Redis.SortedSet.{SortedSet, Documented}
use ai_workflows.Supervisor.WorkQueue.Queue
use ai_workflows.Supervisor.WorkQueue.Queue.{read_all, together}
use ai_workflows.Supervisor.Collect
use ai_workflows.Supervisor.Collect.{without_queued}

-- What the queue's entries are read as has their texts.
together-ok :
    (a : Result WorkItem) (b : Result (List WorkItem)) (items : List WorkItem)
    → together a b ≡ ok items
    → (i : WorkItem) × (is : List WorkItem) × (a ≡ ok i) × (b ≡ ok is) × (items ≡ i ∷ is)
together-ok (ok i) (ok is) items e = (i, is, refl, refl, sym (ok-injective e))
together-ok (ok i) (raised x) items e = cc
together-ok (raised x) b items e = cc

pub read_all-texts :
    (ms : List String) (items : List WorkItem)
    → read_all ms ≡ ok items
    → map work_item_str items ≡ ms
read_all-texts [] items e = rw (sym (ok-injective e)) refl
read_all-texts (m ∷ ms) items e =
    let (i, is, a, b, c) = together-ok (from_str m) (read_all ms) items e in
    rw (c, work_item_str-from_str m i a, read_all-texts ms is b) refl

contains-cons :
    (m n : String) (ms : List String)
    → contains (m ∷ ms) n ≡ false
    → (n ≢ m) × (contains ms n ≡ false)
contains-cons m n ms h = by_test (m == n) refl h
  where
    by_test :
        (b : Bool) → m == n ≡ b → b || contains ms n ≡ false → (n ≢ m) × (contains ms n ≡ false)
    by_test true same g = cc
    by_test false other g = (λ e. let same = (eq_iff m n).1 (sym e) in cc, g)

not_queued :
    (found queued : List WorkItem) (n : String)
    → contains (map work_item_str queued) n ≡ true
    → contains (map work_item_str (without_queued found queued)) n ≡ false
not_queued [] queued n h = refl
not_queued (i ∷ is) queued n h =
    by_test (contains (map work_item_str queued) (work_item_str i)) refl (not_queued is queued n h)
  where
    by_test :
        (b : Bool)
        → contains (map work_item_str queued) (work_item_str i) ≡ b
        → contains (map work_item_str (without_queued is queued)) n ≡ false
        → contains
            (map work_item_str
              (if b then without_queued is queued else i ∷ without_queued is queued))
            n
          ≡ false
    by_test true found rest = rest
    by_test false absent rest = elim (Bool-cases (work_item_str i == n)) [
      | inl same ↦ let e = (eq_iff _ _).0 same in let gone = rw e at absent in cc
      | inr other ↦ rw other rest
    ]

module _ (z : SortedSet) (documented : Documented z) where
  zadd_all-score :
      (s : ℕ) (ms : List String) (q : z.Set) (n : String)
      → contains ms n ≡ false
      → z.score (Queue.zadd_all z s ms q) n ≡ z.score q n
  zadd_all-score s [] q n h = refl
  zadd_all-score s (m ∷ ms) q n h =
      let (other, rest) = contains-cons m n ms h in
      zadd_all-score s ms (z.zadd s m q) n rest ∙ documented.score-zadd_other s m n q other

  queued-members :
      (q : z.Set) (n : String) (t : ℕ) (queued : List WorkItem)
      → z.score q n ≡ some t
      → read_all (z.members q) ≡ ok queued
      → contains (map work_item_str queued) n ≡ true
  queued-members q n t queued h e =
      rw (read_all-texts (z.members q) queued e) (documented.contains-members q n ∙ ap is_some h)

  module _ (services : Services) (kerberos : Log → Result (Unit {0}))
      (current_issues : Log → Result (List Issue)) where
    schedule_new-score :
        (now : ℕ) (found : List WorkItem) (r : Result (List WorkItem)) (q : z.Set) (n : String)
        (t : ℕ)
        → read_all (z.members q) ≡ r
        → z.score q n ≡ some t
        → z.score (Collect.schedule_new z services kerberos current_issues now found r q).1 n
          ≡ some t
    unfolding Collect.schedule_new Queue.schedule_work_items
    schedule_new-score now found (raised e) q n t reads h = h
    schedule_new-score now found (ok queued) q n t reads h =
        zadd_all-score (now + seconds 0) _ q n
          (not_queued found queued n (queued-members q n t queued h reads))
        ∙ h

    with_found-score :
        (now : ℕ) (found : Result (List WorkItem) × Log) (q : z.Set) (n : String) (t : ℕ)
        → z.score q n ≡ some t
        → z.score (Collect.with_found z services kerberos current_issues now found q).1.0 n ≡ some t
    unfolding Collect.with_found Queue.get_all_work_items
    with_found-score now (raised e, log) q n t h = h
    with_found-score now (ok found, log) q n t h =
        schedule_new-score now found (read_all (z.members q)) q n t refl h

    -- Collecting work leaves the time of every item that waits in the queue as it is, whatever is
    -- found and whether it returns or raises: an item that was put off stays put off.
    pub collect-keeps_time :
        (q : z.Set) (log : Log) (n : String) (t : ℕ)
        → z.score q n ≡ some t
        → z.score
            (Collect.collect_and_schedule_work_items z services kerberos current_issues
              (q, log)).1.0
            n
          ≡ some t
    unfolding Collect.collect_and_schedule_work_items
    collect-keeps_time q log n t h = with_found-score (services.now log) _ q n t h
