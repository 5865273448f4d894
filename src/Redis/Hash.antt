-- ===== src/Redis/Hash.antt =====
-- The hash of Redis behind the queue with the counter beside it, and the documented behaviour of
-- the commands that the scripts use.
use ai_workflows.Common.{String, Option, none, some, List, All, ◌≡◌, ◌≢◌}

pub record RedisHash : Type 1 where
  pub Hash : Type 0
  -- HGET, HSET, HDEL of one field
  pub hget : Hash → String → Option String
  pub hset : String → String → Hash → Hash
  pub hdel : String → Hash → Hash
  -- HGETALL, the fields with their values in the order of Redis
  pub hgetall : Hash → List (String × String)
  -- INCR of the counter `hash .. ':recovery_seq'`, which is a key of its own
  pub incr : Hash → String × Hash

pub record Documented (r : RedisHash) : Type 0 where
  pub hget-hset : (f v : String) (h : r.Hash) → r.hget (r.hset f v h) f ≡ some v
  pub hget-hset_other : (f g v : String) (h : r.Hash) → g ≢ f → r.hget (r.hset f v h) g ≡ r.hget h g
  pub hget-hdel : (f : String) (h : r.Hash) → r.hget (r.hdel f h) f ≡ none
  pub hget-hdel_other : (f g : String) (h : r.Hash) → g ≢ f → r.hget (r.hdel f h) g ≡ r.hget h g
  pub hget-incr : (g : String) (h : r.Hash) → r.hget (r.incr h).1 g ≡ r.hget h g
  pub hget-hgetall : (h : r.Hash) → All (λ e. r.hget h e.0 ≡ some e.1) (r.hgetall h)
