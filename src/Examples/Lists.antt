-- ===== src/Examples/Lists.antt =====
-- Lists by their keys, as a function from keys to lists.
use ai_workflows.Common.{
  String, Option, none, some, List, [], ◌∷◌, ◌++◌, ◌≡◌, ◌≢◌, inl, inr, refl, sym, ◌==◌, eq_refl,
  eq_iff, Bool-cases, if◌then◌else◌,
}
use ai_workflows.Redis.Lists.{RedisLists, Documented}

abbrev pub Store : Type 0
Store = String → List String

abbrev put : String → List String → Store → Store
put k vs l n = if k == n then vs else l n

abbrev popped : String → List String → Store → Option String × Store
popped k [] l = (none, l)
popped k (v ∷ vs) l = (some v, put k vs l)

abbrev pub store : RedisLists
store = record {
  Lists = Store;
  lrange = λ l k. l k;
  lpush = λ k v l. put k (v ∷ l k) l;
  rpush = λ k v l. put k (l k ++ (v ∷ [])) l;
  lpop = λ k l. popped k (l k) l;
}

put-same : (k : String) (vs : List String) (l : Store) → put k vs l k ≡ vs
put-same k vs l = rw (eq_refl k) refl

put-other : (k n : String) (vs : List String) (l : Store) → n ≢ k → put k vs l n ≡ l n
put-other k n vs l h = elim (Bool-cases (k == n)) [
  | inl same ↦ absurd (h (sym ((eq_iff k n).0 same)))
  | inr other ↦ rw other refl
]

popped-other : (k n : String) (vs : List String) (l : Store) → n ≢ k → (popped k vs l).1 n ≡ l n
popped-other k n [] l h = refl
popped-other k n (v ∷ vs) l h = put-other k n vs l h

pub store-Documented : Documented store
store-Documented = record {
  lrange-lpush = λ k v l. put-same k (v ∷ l k) l;
  lrange-lpush_other = λ k n v l h. put-other k n (v ∷ l k) l h;
  lrange-rpush = λ k v l. put-same k (l k ++ (v ∷ [])) l;
  lrange-rpush_other = λ k n v l h. put-other k n (l k ++ (v ∷ [])) l h;
  lpop_empty = λ k l e. rw e refl;
  lpop_head = λ k v vs l e. rw e (refl, put-same k vs l);
  lpop_other = λ k n l h. popped-other k n (l k) l h;
}
