-- ===== src/Supervisor/CompareXunit/Files/Keys.antt =====
-- The suites of a file, by name and architecture, as a set.
use ai_workflows.Common.{
  or_cases, or_left, or_right, Bool, true, false, ◌&&◌, some, List, [], ◌∷◌, ◌≡◌, ◌⊎◌, inl, inr,
  refl, sym, subst, map, any, eq_refl, eq_iff, ◌==◌, Bool-cases,
}
use ai_workflows.Supervisor.CompareXunit.{XunitTestSuite}
use ai_workflows.Supervisor.CompareXunit.Files.{
  SuiteKey, suite_key, has_key, same_key, distinct_keys, test_suite_keys, within, same_keys,
  first_suite,
}

and_left : (a b : Bool) → a && b ≡ true → a ≡ true
and_left true b h = refl
and_left false b h = cc

and_right : (a b : Bool) → a && b ≡ true → b ≡ true
and_right true b h = h
and_right false b h = cc

-- Some suite has the name and the architecture.
abbrev pub is_in : List XunitTestSuite → SuiteKey → Bool
is_in suites key = any (same_key key) (map suite_key suites)

abbrev pub SameSuites : List XunitTestSuite → List XunitTestSuite → Type 0
SameSuites suites_a suites_b = (key : SuiteKey) → is_in suites_a key ≡ is_in suites_b key

-- A suite that one file has and the other does not.
abbrev pub DifferentSuites : List XunitTestSuite → List XunitTestSuite → Type 0
DifferentSuites suites_a suites_b =
    (key : SuiteKey) × (((is_in suites_a key ≡ true) × (is_in suites_b key ≡ false))
      ⊎ ((is_in suites_a key ≡ false) × (is_in suites_b key ≡ true)))

pub same_key_refl : (key : SuiteKey) → same_key key key ≡ true
same_key_refl (name, arch) = rw (eq_refl name, eq_refl arch) refl

pub same_key-equal : (key other : SuiteKey) → same_key key other ≡ true → other ≡ key
same_key-equal (name, arch) (n, a) h =
    let names = (eq_iff n name).0 (and_left _ _ h) in
    let arches = (eq_iff a arch).0 (and_right (n == name) _ h) in λ i. (names i, arches i)

-- The keys without repetitions are the keys.
pub any_distinct :
    (key : SuiteKey) (keys : List SuiteKey)
    → any (same_key key) (distinct_keys keys) ≡ true
    → any (same_key key) keys ≡ true
any_distinct key [] h = h
any_distinct key (k ∷ keys) h = elim (Bool-cases (any (same_key k) (distinct_keys keys))) [
  | inl again ↦
      let there = rw again at h in or_right (same_key key k) _ (any_distinct key keys there)
  | inr new ↦
      let either = rw new at h in
      elim (or_cases (same_key key k) (any (same_key key) (distinct_keys keys)) either) [
        | inl here ↦ or_left _ _ here
        | inr there ↦ or_right (same_key key k) _ (any_distinct key keys there)
      ]
]

pub distinct-any :
    (key : SuiteKey) (keys : List SuiteKey)
    → any (same_key key) keys ≡ true
    → any (same_key key) (distinct_keys keys) ≡ true
distinct-any key [] h = h
distinct-any key (k ∷ keys) h = elim (or_cases (same_key key k) (any (same_key key) keys) h) [
  | inl here ↦ elim (Bool-cases (any (same_key k) (distinct_keys keys))) [
    | inl again ↦ rw again (
        subst (λ x. any (same_key x) (distinct_keys keys) ≡ true) (same_key-equal key k here) again)
    | inr new ↦ rw new (or_left _ _ here)
  ]
  | inr there ↦ elim (Bool-cases (any (same_key k) (distinct_keys keys))) [
    | inl again ↦ rw again (distinct-any key keys there)
    | inr new ↦ rw new (or_right (same_key key k) _ (distinct-any key keys there))
  ]
]

within-any :
    (key : SuiteKey) (keys others : List SuiteKey)
    → within keys others ≡ true
    → any (same_key key) keys ≡ true
    → any (same_key key) others ≡ true
within-any key [] others h there = cc
within-any key (k ∷ keys) others h there =
    elim (or_cases (same_key key k) (any (same_key key) keys) there) [
      | inl here ↦
          subst (λ x. any (same_key x) others ≡ true) (same_key-equal key k here)
            (and_left _ (within keys others) h)
      | inr later ↦ within-any key keys others (and_right (any (same_key k) others) _ h) later
    ]

-- A key that is missing among the others.
missing :
    (keys others : List SuiteKey)
    → within keys others ≡ false
    → (key : SuiteKey) × (any (same_key key) keys ≡ true) × (any (same_key key) others ≡ false)
missing [] others h = cc
missing (k ∷ keys) others h = elim (Bool-cases (any (same_key k) others)) [
  | inr absent ↦ (k, or_left _ _ (same_key_refl k), absent)
  | inl there ↦
      let later = rw there at h in
      let (key, present, absent) = missing keys others later in
      (key, or_right (same_key key k) _ present, absent)
]

not_distinct :
    (key : SuiteKey) (keys : List SuiteKey)
    → any (same_key key) (distinct_keys keys) ≡ false
    → any (same_key key) keys ≡ false
not_distinct key keys h = elim (Bool-cases (any (same_key key) keys)) [
  | inl there ↦ let also = distinct-any key keys there in cc
  | inr absent ↦ absent
]

both_ways : (a b : Bool) → (a ≡ true → b ≡ true) → (b ≡ true → a ≡ true) → a ≡ b
both_ways true b f g = sym (f refl)
both_ways false true f g = g refl
both_ways false false f g = refl

pub same_keys-SameSuites :
    (suites_a suites_b : List XunitTestSuite)
    → same_keys suites_a suites_b ≡ true
    → SameSuites suites_a suites_b
unfolding same_keys
same_keys-SameSuites suites_a suites_b h key =
    let there = and_left _ (within (test_suite_keys suites_b) (test_suite_keys suites_a)) h in
    let back = and_right (within (test_suite_keys suites_a) (test_suite_keys suites_b)) _ h in
    both_ways _ _
      (λ k.
        any_distinct key _
          (within-any key (test_suite_keys suites_a) _ there (distinct-any key _ k)))
      (λ k.
        any_distinct key _
          (within-any key (test_suite_keys suites_b) _ back (distinct-any key _ k)))

pub same_keys-DifferentSuites :
    (suites_a suites_b : List XunitTestSuite)
    → same_keys suites_a suites_b ≡ false
    → DifferentSuites suites_a suites_b
unfolding same_keys
same_keys-DifferentSuites suites_a suites_b h =
    elim (Bool-cases (within (test_suite_keys suites_a) (test_suite_keys suites_b))) [
      | inr fewer ↦
          let (key, present, absent) = missing (test_suite_keys suites_a) _ fewer in
          (key, inl (any_distinct key _ present, not_distinct key _ absent))
      | inl all_there ↦
          let other = rw all_there at h in
          let (key, present, absent) = missing (test_suite_keys suites_b) _ other in
          (key, inr (not_distinct key _ absent, any_distinct key _ present))
    ]

abbrev pub Found : List XunitTestSuite → SuiteKey → Type 0
Found suites key = (suite : XunitTestSuite) × (first_suite key suites ≡ some suite)

-- A key among those of the suites finds a suite, and the other way round.
pub first_suite-Found :
    (key : SuiteKey) (suites : List XunitTestSuite) → is_in suites key ≡ true → Found suites key
first_suite-Found key [] h = cc
first_suite-Found key (suite ∷ suites) h = elim (Bool-cases (has_key key suite)) [
  | inl here ↦ (suite, rw here refl)
  | inr other ↦ elim (or_cases (has_key key suite) (is_in suites key) h) [
    | inl here ↦ cc
    | inr there ↦ let (found, e) = first_suite-Found key suites there in (found, rw other e)
  ]
]

pub Found-is_in :
    (key : SuiteKey) (suites : List XunitTestSuite) (suite : XunitTestSuite)
    → first_suite key suites ≡ some suite
    → is_in suites key ≡ true
Found-is_in key [] suite h = cc
Found-is_in key (s ∷ suites) suite h = elim (Bool-cases (has_key key s)) [
  | inl here ↦ or_left _ _ here
  | inr other ↦
      let later = rw other at h in or_right (has_key key s) _ (Found-is_in key suites suite later)
]
