-- ===== src/Examples/Hash.antt =====
-- A hash as a list of entries, the last written first, with the counter beside it.
use ai_workflows.Common.{
  differ, ℕ, suc, String, Option, none, some, List, [], ◌∷◌, ◌≡◌, ◌≢◌, inl, inr, refl, sym, ◌∙◌,
  ◌==◌, eq_refl, eq_iff, to_str, All, Bool-cases, if◌then◌else◌,
}
use ai_workflows.Redis.Hash.{RedisHash, Documented}

abbrev Fields : Type 0
Fields = List (String × String)

abbrev get : Fields → String → Option String
get [] f = none
get ((g, v) ∷ h) f = if g == f then some v else get h f

abbrev del : String → Fields → Fields
del f [] = []
del f ((g, v) ∷ h) = let rest = del f h in if g == f then rest else (g, v) ∷ rest

abbrev add : String → Option String → Fields → Fields
add f none rest = rest
add f (some v) rest = (f, v) ∷ rest

abbrev all_of : Fields → Fields → Fields
all_of h [] = []
all_of h ((f, v) ∷ fs) = add f (get h f) (all_of h fs)

abbrev pub fields : RedisHash
fields = record {
  Hash = ℕ × Fields;
  hget = λ h f. get h.1 f;
  hset = λ f v h. (h.0, (f, v) ∷ del f h.1);
  hdel = λ f h. (h.0, del f h.1);
  hgetall = λ h. all_of h.1 h.1;
  incr = λ h. (to_str (suc h.0), (suc h.0, h.1));
}

get-del : (f : String) (h : Fields) → get (del f h) f ≡ none
get-del f [] = refl
get-del f ((g, v) ∷ h) = elim (Bool-cases (g == f)) [
  | inl same ↦ rw same (get-del f h)
  | inr other ↦ rw (other, other) (get-del f h)
]

get-del_other : (f g : String) (h : Fields) → g ≢ f → get (del f h) g ≡ get h g
get-del_other f g [] n = refl
get-del_other f g ((k, v) ∷ h) n = elim (Bool-cases (k == f)) [
  | inl same ↦ rw (same, differ k g (λ e. n (sym e ∙ (eq_iff k f).0 same))) (get-del_other f g h n)
  | inr other ↦ rw (other, get-del_other f g h n) refl
]

add-All :
    (h : Fields) (f : String) (o : Option String) (rest : Fields)
    → get h f ≡ o
    → All (λ e. get h e.0 ≡ some e.1) rest
    → All (λ e. get h e.0 ≡ some e.1) (add f o rest)
add-All h f none rest e r = r
add-All h f (some v) rest e r = (e, r)

all_of-All : (h fs : Fields) → All (λ e. get h e.0 ≡ some e.1) (all_of h fs)
all_of-All h [] = tt
all_of-All h ((f, v) ∷ fs) = add-All h f (get h f) (all_of h fs) refl (all_of-All h fs)

pub fields-Documented : Documented fields
fields-Documented = record {
  hget-hset = λ f v h. rw (eq_refl f) refl;
  hget-hset_other = λ f g v h n. rw (differ f g (λ e. n (sym e))) (get-del_other f g h.1 n);
  hget-hdel = λ f h. get-del f h.1;
  hget-hdel_other = λ f g h n. get-del_other f g h.1 n;
  hget-incr = λ g h. refl;
  hget-hgetall = λ h. all_of-All h.1 h.1;
}
