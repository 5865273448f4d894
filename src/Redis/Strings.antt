-- ===== src/Redis/Strings.antt =====
-- The texts of Redis by their keys, each with the time at which it expires, and the documented
-- behaviour of the commands on them. Times are milliseconds.
use ai_workflows.Common.{ℕ, ◌+◌, ◌≤◌, ◌<◌, String, Bool, true, false, Option, none, some, ◌≡◌, ◌≢◌}

pub record RedisStrings : Type 1 where
  pub Store : Type 0
  -- GET at a moment
  pub get : ℕ → String → Store → Option String
  -- SET key value NX PX ttl at a moment, DEL key, PEXPIRE key ttl at a moment
  pub set_nx : ℕ → String → String → ℕ → Store → Bool × Store
  pub del : String → Store → Store
  pub pexpire : ℕ → String → ℕ → Store → Store

pub record Documented (r : RedisStrings) : Type 0 where
  -- a key that is not written to keeps its text until it expires
  pub get_later :
      (t u : ℕ) (k v : String) (s : r.Store) → t ≤ u → r.get u k s ≡ some v → r.get t k s ≡ some v
  pub set_nx_free :
      (t ttl : ℕ) (k v : String) (s : r.Store)
      → r.get t k s ≡ none
      → 0 < ttl
      → (r.set_nx t k v ttl s).0 ≡ true
  pub get-set_nx :
      (t u ttl : ℕ) (k v : String) (s : r.Store)
      → r.get t k s ≡ none
      → t ≤ u
      → u < t + ttl
      → r.get u k (r.set_nx t k v ttl s).1 ≡ some v
  pub set_nx_held :
      (t ttl : ℕ) (k v w : String) (s : r.Store)
      → r.get t k s ≡ some w
      → r.set_nx t k v ttl s ≡ (false, s)
  pub get-set_nx_other :
      (t u ttl : ℕ) (k m v : String) (s : r.Store)
      → m ≢ k
      → r.get u m (r.set_nx t k v ttl s).1 ≡ r.get u m s
  pub get-del : (u : ℕ) (k : String) (s : r.Store) → r.get u k (r.del k s) ≡ none
  pub get-del_other :
      (u : ℕ) (k m : String) (s : r.Store) → m ≢ k → r.get u m (r.del k s) ≡ r.get u m s
  pub get-pexpire :
      (t u ttl : ℕ) (k v : String) (s : r.Store)
      → r.get t k s ≡ some v
      → t ≤ u
      → u < t + ttl
      → r.get u k (r.pexpire t k ttl s) ≡ some v
  pub get-pexpire_other :
      (t u ttl : ℕ) (k m : String) (s : r.Store)
      → m ≢ k
      → r.get u m (r.pexpire t k ttl s) ≡ r.get u m s
