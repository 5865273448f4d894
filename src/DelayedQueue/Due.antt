-- ===== src/DelayedQueue/Due.antt =====
-- Due tasks change from the sorted set to their list, and the others wait on.
use ai_workflows.Common.{
  or_cases, or_left, or_right, ℕ, ◌≤◌, ◌<◌, String, Bool, true, false, Option, none, some, is_some,
  List, [], ◌∷◌, ◌≡◌, inl, inr, refl, ap, sym, ◌∙◌, subst, contains, ◌||◌, ◌==◌, eq_iff, leb,
  leb-true, Bool-cases, String-cases, arith, eq_refl, differ,
}
use ai_workflows.Redis.SortedSet.{SortedSet}
use ai_workflows.Redis.Lists.{RedisLists}
use ai_workflows.Redis.SortedSet as Sets
use ai_workflows.Redis.Lists as ListsOf
use ai_workflows.DelayedQueue.{due_at, cutoff_of, due_members, promote_all, promote_due_tasks}

not_leb : (a b : ℕ) → b < a → leb a b ≡ false
not_leb a b h = ground arith

tail_false : (a b : Bool) → a || b ≡ false → b ≡ false
tail_false true b h = cc
tail_false false b h = h

module _ (z : SortedSet) (cutoff : ℕ) (q : z.Set) (n : String) where
  due_members-finds :
      (ms : List String)
      → due_at cutoff (z.score q n) ≡ true
      → contains ms n ≡ true
      → contains (due_members z cutoff q ms) n ≡ true
  unfolding due_members
  due_members-finds [] due h = h
  due_members-finds (m ∷ ms) due h = elim (Bool-cases (due_at cutoff (z.score q m))) [
    | inl taken ↦ rw taken (elim (or_cases (m == n) (contains ms n) h) [
      | inl here ↦ or_left _ _ here
      | inr there ↦ or_right (m == n) _ (due_members-finds ms due there)
    ])
    | inr left ↦ rw left (elim (or_cases (m == n) (contains ms n) h) [
      | inl here ↦
          let same = ap (λ k. due_at cutoff (z.score q k)) ((eq_iff m n).0 here) in
          let not_due = sym left ∙ (same ∙ due) in cc
      | inr there ↦ due_members-finds ms due there
    ])
  ]

  due_members-leaves :
      (ms : List String)
      → due_at cutoff (z.score q n) ≡ false
      → contains (due_members z cutoff q ms) n ≡ false
  unfolding due_members
  due_members-leaves [] waits = refl
  due_members-leaves (m ∷ ms) waits = elim (Bool-cases (due_at cutoff (z.score q m))) [
    | inr left ↦ rw left (due_members-leaves ms waits)
    | inl taken ↦ rw taken (elim (String-cases m n) [
      | inl same ↦
          let both = ap (λ k. due_at cutoff (z.score q k)) same in
          let due = sym taken ∙ (both ∙ waits) in cc
      | inr other ↦ rw (differ m n other) (due_members-leaves ms waits)
    ])
  ]

module _ (z : SortedSet) (r : RedisLists) (sets : Sets.Documented z) (lists : ListsOf.Documented r)
    (target_queue_for_payload : String → String) (n : String) where
  abbrev target : String
  target = target_queue_for_payload n

  zrem_none : (m : String) (q : z.Set) → z.score q n ≡ none → z.score (z.zrem m q) n ≡ none
  zrem_none m q h = elim (String-cases n m) [
    | inl same ↦ ap (z.score (z.zrem m q)) same ∙ sets.score-zrem m q
    | inr other ↦ sets.score-zrem_other m n q other ∙ h
  ]

  lpush_stays :
      (k v : String) (l : r.Lists)
      → contains (r.lrange l target) n ≡ true
      → contains (r.lrange (r.lpush k v l) target) n ≡ true
  lpush_stays k v l h = elim (String-cases target k) [
    | inl same ↦
        subst (λ s. contains (r.lrange (r.lpush s v l) target) n ≡ true) same
          (rw (lists.lrange-lpush target v l) (or_right (v == n) _ h))
    | inr other ↦ rw (lists.lrange-lpush_other k target v l other) h
  ]

  promote_all-stays :
      (ms : List String) (q : z.Set) (l : r.Lists)
      → z.score q n ≡ none
      → contains (r.lrange l target) n ≡ true
      → (z.score (promote_all z r target_queue_for_payload ms (q, l)).1.0 n ≡ none)
        × (contains (r.lrange (promote_all z r target_queue_for_payload ms (q, l)).1.1 target) n
            ≡ true)
  unfolding promote_all
  promote_all-stays [] q l h k = (h, k)
  promote_all-stays (m ∷ ms) q l h k =
      promote_all-stays ms _ _ (zrem_none m q h) (lpush_stays _ m l k)

  promote_all-promotes :
      (ms : List String) (q : z.Set) (l : r.Lists)
      → contains ms n ≡ true
      → (z.score (promote_all z r target_queue_for_payload ms (q, l)).1.0 n ≡ none)
        × (contains (r.lrange (promote_all z r target_queue_for_payload ms (q, l)).1.1 target) n
            ≡ true)
  unfolding promote_all
  promote_all-promotes [] q l h = cc
  promote_all-promotes (m ∷ ms) q l h = elim (or_cases (m == n) (contains ms n) h) [
    | inr there ↦ promote_all-promotes ms _ _ there
    | inl here ↦
        let same = (eq_iff m n).0 here in
        promote_all-stays ms _ _ (ap (z.score (z.zrem m q)) (sym same) ∙ sets.score-zrem m q) (
          subst
            (λ k. contains (r.lrange (r.lpush (target_queue_for_payload k) k l) target) n ≡ true)
            (sym same) (rw (lists.lrange-lpush target n l) (or_left _ _ (eq_refl n))))
  ]

  promote_all-leaves :
      (ms : List String) (q : z.Set) (l : r.Lists)
      → contains ms n ≡ false
      → z.score (promote_all z r target_queue_for_payload ms (q, l)).1.0 n ≡ z.score q n
  unfolding promote_all
  promote_all-leaves [] q l h = refl
  promote_all-leaves (m ∷ ms) q l h = elim (String-cases n m) [
    | inl same ↦ let here = or_left (m == n) (contains ms n) ((eq_iff m n).1 (sym same)) in cc
    | inr other ↦
        promote_all-leaves ms _ _ (tail_false (m == n) (contains ms n) h)
        ∙ sets.score-zrem_other m n q other
  ]

-- A task that is due at the time of a promotion is afterwards no longer in the sorted set, and is
-- in the list that its payload asks for.
pub promote_due_tasks-promotes :
    (z : SortedSet) (r : RedisLists)
    → Sets.Documented z
    → ListsOf.Documented r
    → (target_queue_for_payload : String → String) (clock : ℕ) (now : Option ℕ) (q : z.Set)
    → (l : r.Lists) (payload : String) (ready_at : ℕ) → z.score q payload ≡ some ready_at
    → ready_at ≤ cutoff_of clock now
    → (z.score (promote_due_tasks z r target_queue_for_payload clock now (q, l)).1.0 payload ≡ none)
      × (contains
            (r.lrange
              (promote_due_tasks z r target_queue_for_payload clock now (q, l)).1.1
              (target_queue_for_payload payload))
            payload
          ≡ true)
unfolding promote_due_tasks
promote_due_tasks-promotes z r sets lists f clock now q l payload ready_at scored due =
    promote_all-promotes z r sets lists f payload _ q l (
      due_members-finds z (cutoff_of clock now) q payload (z.members q)
        (ap (due_at (cutoff_of clock now)) scored ∙ leb-true _ _ due)
        (sets.contains-members q payload ∙ ap is_some scored))

-- A task that is not due at the time of a promotion stays in the sorted set, with its time.
pub promote_due_tasks-leaves :
    (z : SortedSet) (r : RedisLists)
    → Sets.Documented z
    → ListsOf.Documented r
    → (target_queue_for_payload : String → String) (clock : ℕ) (now : Option ℕ) (q : z.Set)
    → (l : r.Lists) (payload : String) (ready_at : ℕ) → z.score q payload ≡ some ready_at
    → cutoff_of clock now < ready_at
    → z.score (promote_due_tasks z r target_queue_for_payload clock now (q, l)).1.0 payload
      ≡ some ready_at
unfolding promote_due_tasks
promote_due_tasks-leaves z r sets lists f clock now q l payload ready_at scored early =
    promote_all-leaves z r sets lists f payload _ q l (
      due_members-leaves z (cutoff_of clock now) q payload (z.members q)
        (ap (due_at (cutoff_of clock now)) scored ∙ not_leb _ _ early))
    ∙ scored
