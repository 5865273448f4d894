-- ===== src/Supervisor/CompareXunit/Names.antt =====
-- The names of the test cases of two suites, as sets and as keys.
use ai_workflows.Common.{
  or_cases, or_left, or_right, String, Bool, true, false, some, is_some, List, [], ◌∷◌, ◌++◌, ◌≡◌,
  ◌⊎◌, inl, inr, refl, ap, subst, ◌∙◌, contains, All, ◌==◌, eq_iff, eq_refl, if◌then◌else◌,
  Bool-cases, Option-cases, arith,
}
use ai_workflows.Supervisor.CompareXunit.{
  XunitTestCase, XunitTestSuite, last_named, distinct, names_of, all_keys,
}

pub contains-append_left :
    (xs ys : List String) (k : String) → contains xs k ≡ true → contains (xs ++ ys) k ≡ true
contains-append_left [] ys k h = cc
contains-append_left (x ∷ xs) ys k h = elim (or_cases (x == k) (contains xs k) h) [
  | inl here ↦ or_left _ _ here
  | inr there ↦ or_right (x == k) _ (contains-append_left xs ys k there)
]

pub contains-append_right :
    (xs ys : List String) (k : String) → contains ys k ≡ true → contains (xs ++ ys) k ≡ true
contains-append_right [] ys k h = h
contains-append_right (x ∷ xs) ys k h = or_right (x == k) _ (contains-append_right xs ys k h)

contains-append_cases :
    (xs ys : List String) (k : String)
    → contains (xs ++ ys) k ≡ true
    → (contains xs k ≡ true) ⊎ (contains ys k ≡ true)
contains-append_cases [] ys k h = inr h
contains-append_cases (x ∷ xs) ys k h = elim (or_cases (x == k) (contains (xs ++ ys) k) h) [
  | inl here ↦ inl (or_left _ _ here)
  | inr there ↦ elim (contains-append_cases xs ys k there) [
    | inl left ↦ inl (or_right (x == k) _ left)
    | inr right ↦ inr right
  ]
]

pub contains-distinct :
    (xs : List String) (k : String) → contains xs k ≡ true → contains (distinct xs) k ≡ true
contains-distinct [] k h = h
contains-distinct (x ∷ xs) k h = elim (Bool-cases (contains (distinct xs) x)) [
  | inl again ↦ rw again (elim (or_cases (x == k) (contains xs k) h) [
    | inl here ↦ subst (λ s. contains (distinct xs) s ≡ true) ((eq_iff x k).0 here) again
    | inr there ↦ contains-distinct xs k there
  ])
  | inr new ↦ rw new (elim (or_cases (x == k) (contains xs k) h) [
    | inl here ↦ or_left _ _ here
    | inr there ↦ or_right (x == k) _ (contains-distinct xs k there)
  ])
]

All-if :
    (P : String → Type 0) (b : Bool) (xs ys : List String)
    → All P xs
    → All P ys
    → All P (if b then xs else ys)
All-if P true xs ys h k = h
All-if P false xs ys h k = k

distinct-All : (P : String → Type 0) (xs : List String) → All P xs → All P (distinct xs)
distinct-All P [] h = h
distinct-All P (x ∷ xs) (p, h) =
    let ih = distinct-All P xs h in All-if P (contains (distinct xs) x) _ _ ih (p, ih)

All-contains :
    (P : String → Type 0) (xs : List String)
    → ((k : String) → contains xs k ≡ true → P k)
    → All P xs
All-contains P [] h = tt
All-contains P (x ∷ xs) h =
    (h x (or_left _ _ (eq_refl x)), All-contains P xs (λ k there. h k (or_right (x == k) _ there)))

last_named-is_some :
    (key : String) (tcs : List XunitTestCase)
    → contains (names_of tcs) key ≡ true
    → is_some (last_named key tcs) ≡ true
last_named-is_some key [] h = cc
last_named-is_some key (tc ∷ tcs) h = elim (Option-cases (last_named key tcs)) [
  | inr (later, e) ↦ rw e refl
  | inl e ↦ elim (or_cases (tc.name == key) (contains (names_of tcs) key) h) [
    | inl here ↦ rw (e, here) refl
    | inr there ↦ let t = last_named-is_some key tcs there in let f = ap is_some e in cc
  ]
]

-- Each key of the comparison names a case of one suite or of the other.
pub all_keys-found :
    (suite_a suite_b : XunitTestSuite)
    → All
        (λ key.
          (is_some (last_named key suite_a.test_cases) ≡ true)
          ⊎ (is_some (last_named key suite_b.test_cases) ≡ true))
        (all_keys suite_a suite_b)
all_keys-found suite_a suite_b = distinct-All _ _ (
    All-contains _ _ (λ key there.
      elim (contains-append_cases (names_of suite_a.test_cases) (names_of suite_b.test_cases) key
        there) [
          | inl left ↦ inl (last_named-is_some key suite_a.test_cases left)
          | inr right ↦ inr (last_named-is_some key suite_b.test_cases right)
        ]))

-- The case that a key finds has the key's name, which is then a name of the suite.
pub last_named-name :
    (key : String) (tcs : List XunitTestCase) (found : XunitTestCase)
    → last_named key tcs ≡ some found
    → (found.name == key ≡ true) × (contains (names_of tcs) key ≡ true)
last_named-name key [] found h = ground arith
last_named-name key (tc ∷ tcs) found h = elim (Option-cases (last_named key tcs)) [
  | inr (later, e) ↦
      let same = rw e at h in
      let (named, there) = last_named-name key tcs found (e ∙ same) in
      (named, or_right (tc.name == key) _ there)
  | inl e ↦ elim (Bool-cases (tc.name == key)) [
    | inl here ↦ let same = rw (e, here) at h in (ground arith, or_left _ _ here)
    | inr other ↦ let none_found = rw (e, other) at h in ground arith
  ]
]
