-- ===== src/Examples/Strings.antt =====
-- Texts with the times at which they expire.
use ai_workflows.Common.{
  differ, ℕ, ◌+◌, ◌<◌, ◌≤◌, String, Bool, true, false, Option, none, some, ◌≡◌, ◌≢◌, refl, sym,
  arith, ltb, ◌==◌, eq_refl, if◌then◌else◌,
}
use ai_workflows.Redis.Strings.{RedisStrings, Documented}

abbrev pub Texts : Type 0
Texts = String → Option (String × ℕ)

abbrev live : ℕ → Option (String × ℕ) → Option String
live u none = none
live u (some (v, deadline)) = if ltb u deadline then some v else none

abbrev prolonged : ℕ → Option (String × ℕ) → Option (String × ℕ)
prolonged deadline none = none
prolonged deadline (some (v, earlier)) = some (v, deadline)

abbrev put : String → Option (String × ℕ) → Texts → Texts
put k o s m = if k == m then o else s m

abbrev set_if : Option String → String → Option (String × ℕ) → Texts → Bool × Texts
set_if none k o s = (true, put k o s)
set_if (some w) k o s = (false, s)

abbrev pub texts : RedisStrings
texts = record {
  Store = Texts;
  get = λ u k s. live u (s k);
  set_nx = λ t k v ttl s. set_if (live t (s k)) k (some (v, t + ttl)) s;
  del = λ k s. put k none s;
  pexpire = λ t k ttl s. put k (prolonged (t + ttl) (s k)) s;
}

ltb-true : (a b : ℕ) → a < b → ltb a b ≡ true
ltb-true a b h = ground arith

live_earlier :
    (t u : ℕ) (o : Option (String × ℕ)) (v : String) → t ≤ u → live u o ≡ some v → live t o ≡ some v
live_earlier t u none v h e = cc
live_earlier t u (some (w, deadline)) v h e = ground arith

put_other : (k m : String) (o : Option (String × ℕ)) (s : Texts) → m ≢ k → put k o s m ≡ s m
put_other k m o s apart = rw (differ k m (λ e. apart (sym e))) refl

set_if_other :
    (u : ℕ) (free : Option String) (k m : String) (o : Option (String × ℕ)) (s : Texts)
    → m ≢ k
    → live u ((set_if free k o s).1 m) ≡ live u (s m)
set_if_other u none k m o s apart = rw (put_other k m o s apart) refl
set_if_other u (some w) k m o s apart = refl

live-prolonged :
    (t u deadline : ℕ) (o : Option (String × ℕ)) (v : String)
    → live t o ≡ some v
    → u < deadline
    → live u (prolonged deadline o) ≡ some v
live-prolonged t u deadline none v e h = cc
live-prolonged t u deadline (some (w, earlier)) v e h = ground arith

pub texts-Documented : Documented texts
texts-Documented = record {
  get_later = λ t u k v s h e. live_earlier t u (s k) v h e;
  set_nx_free = λ t ttl k v s free positive. rw free refl;
  get-set_nx =
      λ t u ttl k v s free from until. rw (free, eq_refl k, ltb-true u (t + ttl) until) refl;
  set_nx_held = λ t ttl k v w s held. rw held refl;
  get-set_nx_other = λ t u ttl k m v s apart. set_if_other u (live t (s k)) k m _ s apart;
  get-del = λ u k s. rw (eq_refl k) refl;
  get-del_other = λ u k m s apart. rw (put_other k m none s apart) refl;
  get-pexpire = λ t u ttl k v s held from until.
      rw (eq_refl k) (live-prolonged t u (t + ttl) (s k) v held until);
  get-pexpire_other = λ t u ttl k m s apart. rw (put_other k m _ s apart) refl;
}
