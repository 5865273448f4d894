-- ===== src/Supervisor/WorkQueue/Queue/InQueue.antt =====
-- An entry of the sorted set stays one when a member is added.
use ai_workflows.Common.{ℕ, String, true, is_some, ◌≡◌, inl, inr, refl, String-cases}
use ai_workflows.Redis.SortedSet.{SortedSet, Documented}

module _ (z : SortedSet) where
  abbrev pub InQueue : String → z.Set → Type 0
  InQueue n q = is_some (z.score q n) ≡ true

  pub InQueue-zadd :
      Documented z → (s : ℕ) (m n : String) (q : z.Set) → InQueue n q → InQueue n (z.zadd s m q)
  InQueue-zadd documented s m n q h = elim (String-cases n m) [
    | inl same ↦ rw (same, documented.score-zadd s m q) refl
    | inr other ↦ rw (documented.score-zadd_other s m n q other) h
  ]
