-- ===== src/Redis/Lists.antt =====
-- The lists of Redis by their keys, and the documented behaviour of the commands on them.
use ai_workflows.Common.{String, Option, none, some, List, [], ◌∷◌, ◌++◌, ◌≡◌, ◌≢◌}

pub record RedisLists : Type 1 where
  pub Lists : Type 0
  -- LRANGE key 0 -1
  pub lrange : Lists → String → List String
  -- LPUSH, RPUSH of one element, LPOP
  pub lpush : String → String → Lists → Lists
  pub rpush : String → String → Lists → Lists
  pub lpop : String → Lists → Option String × Lists

pub record Documented (r : RedisLists) : Type 0 where
  pub lrange-lpush : (k v : String) (l : r.Lists) → r.lrange (r.lpush k v l) k ≡ v ∷ r.lrange l k
  pub lrange-lpush_other :
      (k n v : String) (l : r.Lists) → n ≢ k → r.lrange (r.lpush k v l) n ≡ r.lrange l n
  pub lrange-rpush :
      (k v : String) (l : r.Lists) → r.lrange (r.rpush k v l) k ≡ r.lrange l k ++ (v ∷ [])
  pub lrange-rpush_other :
      (k n v : String) (l : r.Lists) → n ≢ k → r.lrange (r.rpush k v l) n ≡ r.lrange l n
  pub lpop_empty : (k : String) (l : r.Lists) → r.lrange l k ≡ [] → r.lpop k l ≡ (none, l)
  pub lpop_head :
      (k v : String) (vs : List String) (l : r.Lists)
      → r.lrange l k ≡ v ∷ vs
      → ((r.lpop k l).0 ≡ some v) × (r.lrange (r.lpop k l).1 k ≡ vs)
  pub lpop_other : (k n : String) (l : r.Lists) → n ≢ k → r.lrange (r.lpop k l).1 n ≡ r.lrange l n
