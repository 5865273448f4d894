-- ===== src/Examples/SortedSet.antt =====
-- A sorted set as a list of entries: a member's score is the least of its entries.
use ai_workflows.Common.{
  differ, ℕ, ◌≤◌, String, Bool, true, false, Option, none, some, is_some, List, [], ◌∷◌, ◌≡◌, ◌≢◌,
  inl, inr, refl, sym, ◌∙◌, ◌==◌, ◌||◌, eq_refl, eq_iff, leb, le_of_leb, le_of_not_leb, leb-true,
  contains, map, arith, Bool-cases, if◌then◌else◌,
}
use ai_workflows.Redis.SortedSet.{SortedSet, Documented}

abbrev pub Entries : Type 0
Entries = List (String × ℕ)

abbrev least : ℕ → Option ℕ → Option ℕ
least s none = some s
least s (some t) = if leb s t then some s else some t

abbrev score : Entries → String → Option ℕ
score [] n = none
score ((m, s) ∷ q) n = let rest = score q n in if m == n then least s rest else rest

abbrev zrem : String → Entries → Entries
zrem m [] = []
zrem m ((k, s) ∷ q) = let rest = zrem m q in if k == m then rest else (k, s) ∷ rest

abbrev better : String → ℕ → Option (String × ℕ) → Option (String × ℕ)
better m s none = some (m, s)
better m s (some (k, t)) = if leb s t then some (m, s) else some (k, t)

abbrev first : Entries → Option (String × ℕ)
first [] = none
first ((m, s) ∷ q) = better m s (first q)

abbrev members : Entries → List String
members q = map (λ e. e.0) q

abbrev pub entries : SortedSet
entries = record {
  Set = Entries;
  zadd = λ s m q. (m, s) ∷ zrem m q;
  zrem = zrem;
  del = λ q. [];
  first = first;
  members = members;
  score = score;
}

score-zrem_same : (m : String) (q : Entries) → score (zrem m q) m ≡ none
score-zrem_same m [] = refl
score-zrem_same m ((k, s) ∷ q) = elim (Bool-cases (k == m)) [
  | inl same ↦ rw same (score-zrem_same m q)
  | inr other ↦ rw (other, other) (score-zrem_same m q)
]

score-zrem_differ : (m n : String) (q : Entries) → n ≢ m → score (zrem m q) n ≡ score q n
score-zrem_differ m n [] h = refl
score-zrem_differ m n ((k, s) ∷ q) h = elim (Bool-cases (k == m)) [
  | inl same ↦
      rw (same, differ k n (λ e. h (sym e ∙ (eq_iff k m).0 same))) (score-zrem_differ m n q h)
  | inr other ↦ rw (other, score-zrem_differ m n q h) refl
]

-- What `first` knows of all the scores.
abbrev Least : Entries → Option (String × ℕ) → Type 0
Least q none = (n : String) → score q n ≡ none
Least q (some (m, s)) = (score q m ≡ some s) × ((n : String) (t : ℕ) → score q n ≡ some t → s ≤ t)

abbrev Above : ℕ → Option ℕ → Type 0
Above s none = Unit
Above s (some t) = s ≤ t

least-exact : (s : ℕ) (o : Option ℕ) → Above s o → least s o ≡ some s
least-exact s none h = refl
least-exact s (some t) h = rw (leb-true s t h) refl

least-Above : (r s : ℕ) (o : Option ℕ) → r ≤ s → Above r o → Above r (least s o)
least-Above r s none below h = below
least-Above r s (some t) below h = elim (Bool-cases (leb s t)) [
  | inl le ↦ rw le below
  | inr gt ↦ rw gt h
]

Above-of : (s : ℕ) (o : Option ℕ) → ((t : ℕ) → o ≡ some t → s ≤ t) → Above s o
Above-of s none h = tt
Above-of s (some t) h = h t refl

of-Above : (s : ℕ) (o : Option ℕ) (t : ℕ) → Above s o → o ≡ some t → s ≤ t
of-Above s o t h e = rw e at h

Above-if :
    (r s : ℕ) (b : Bool) (o : Option ℕ) → r ≤ s → Above r o → Above r (if b then least s o else o)
Above-if r s true o below h = least-Above r s o below h
Above-if r s false o below h = h

Above-none : (s : ℕ) (o : Option ℕ) → o ≡ none → Above s o
Above-none s o e = rw e tt

better-Least :
    (m : String) (s : ℕ) (q : Entries) (f : Option (String × ℕ))
    → Least q f
    → Least ((m, s) ∷ q) (better m s f)
better-Least m s q none h = (
  rw (eq_refl m) (least-exact s (score q m) (Above-none s _ (h m))),
  λ n t e.
      of-Above s _ t (Above-if s s (m == n) (score q n) (omega arith) (Above-none s _ (h n))) e,
)
better-Least m s q (some (k, u)) h = elim (Bool-cases (leb s u)) [
  | inl le ↦ rw le (
    rw (eq_refl m) (least-exact s (score q m) (lower m (le_of_leb s u le))),
    λ n t e.
        of-Above s _ t
          (Above-if s s (m == n) (score q n) (omega arith) (lower n (le_of_leb s u le))) e,
  )
  | inr gt ↦ rw gt (
    by_name (m == k) gt,
    λ n t e.
        of-Above u _ t
          (Above-if u s (m == n) (score q n) (le_of_not_leb s u gt) (Above-of u _ (h.1 n))) e,
  )
]
  where
    lower : (n : String) → s ≤ u → Above s (score q n)
    lower n le = Above-of s _ (λ t e. let below = h.1 n t e in omega arith)

    by_name : (b : Bool) → leb s u ≡ false → (if b then least s (score q k) else score q k) ≡ some u
    by_name true gt = rw (h.0, gt) refl
    by_name false gt = h.0

first-Least : (q : Entries) → Least q (first q)
first-Least [] = λ n. refl
first-Least ((m, s) ∷ q) = better-Least m s q (first q) (first-Least q)

is_some-if_least :
    (b : Bool) (s : ℕ) (o : Option ℕ) → b || is_some o ≡ is_some (if b then least s o else o)
is_some-if_least true s none = refl
is_some-if_least true s (some t) = elim (Bool-cases (leb s t)) [
  | inl le ↦ rw le refl
  | inr gt ↦ rw gt refl
]
is_some-if_least false s o = refl

contains-members : (q : Entries) (n : String) → contains (members q) n ≡ is_some (score q n)
contains-members [] n = refl
contains-members ((m, s) ∷ q) n =
    rw (contains-members q n) (is_some-if_least (m == n) s (score q n))

pub entries-Documented : Documented entries
entries-Documented = record {
  score-zadd = λ s m q. rw (eq_refl m, score-zrem_same m q) refl;
  score-zadd_other = λ s m n q h. rw (differ m n (λ e. h (sym e))) (score-zrem_differ m n q h);
  score-zrem = score-zrem_same;
  score-zrem_other = score-zrem_differ;
  score-del = λ m q. refl;
  first-score = λ q m s e. (rw e at (first-Least q)).0;
  first_least = λ q m n s t e queued. (rw e at (first-Least q)).1 n t queued;
  first_empty = λ q n e. (rw e at (first-Least q)) n;
  contains-members = contains-members;
}
