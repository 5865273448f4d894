-- ===== src/Redis/SortedSet.antt =====
-- The sorted set of Redis behind the queue, and the documented behaviour of the commands that the
-- queue uses on it. Scores are microseconds, as the moments are.
use ai_workflows.Common.{ℕ, ◌≤◌, String, Option, none, some, List, ◌≡◌, ◌≢◌, contains, is_some}

pub record SortedSet : Type 1 where
  pub Set : Type 0
  -- ZADD of one member, ZREM of one member, DEL
  pub zadd : ℕ → String → Set → Set
  pub zrem : String → Set → Set
  pub del : Set → Set
  -- ZRANGE key 0 0 WITHSCORES, ZRANGE key 0 -1
  pub first : Set → Option (String × ℕ)
  pub members : Set → List String
  -- ZSCORE
  pub score : Set → String → Option ℕ

-- What the documentation of Redis says of these commands.
pub record Documented (z : SortedSet) : Type 0 where
  pub score-zadd : (s : ℕ) (m : String) (q : z.Set) → z.score (z.zadd s m q) m ≡ some s
  pub score-zadd_other :
      (s : ℕ) (m n : String) (q : z.Set) → n ≢ m → z.score (z.zadd s m q) n ≡ z.score q n
  pub score-zrem : (m : String) (q : z.Set) → z.score (z.zrem m q) m ≡ none
  pub score-zrem_other : (m n : String) (q : z.Set) → n ≢ m → z.score (z.zrem m q) n ≡ z.score q n
  pub score-del : (m : String) (q : z.Set) → z.score (z.del q) m ≡ none
  -- the first member has the least score
  pub first-score :
      (q : z.Set) (m : String) (s : ℕ) → z.first q ≡ some (m, s) → z.score q m ≡ some s
  pub first_least :
      (q : z.Set) (m n : String) (s t : ℕ) → z.first q ≡ some (m, s) → z.score q n ≡ some t → s ≤ t
  pub first_empty : (q : z.Set) (n : String) → z.first q ≡ none → z.score q n ≡ none
  pub contains-members : (q : z.Set) (n : String) → contains (z.members q) n ≡ is_some (z.score q n)
