-- ===== src/Supervisor/CompareXunit/Regressions.antt =====
-- No regression is missed.
use ai_workflows.Common.{
  or_cases, or_left, String, true, Option, none, some, List, [], ◌∷◌, ◌++◌, ◌≡◌, ◌==◌, inl, inr,
  refl, ap, ◌∙◌, map, contains, eq_iff,
}
use ai_workflows.Supervisor.CompareXunit.{
  XunitTestCaseResult, XunitTestCase, XunitTestSuite, ComparisonResult, XunitTestCaseComparison,
  XunitComparison, classify, one_more, append_to, compare_case, compare_key, compare_keys,
  compare_test_suites, last_named, names_of,
}
use ai_workflows.Supervisor.CompareXunit.Counts.{Passed, Failed}
use ai_workflows.Supervisor.CompareXunit.Names.{
  contains-append_left, contains-append_right, contains-distinct, last_named-name,
}

abbrev pub regressions : XunitComparison → List String
regressions o = map (λ c. c.name) o.regression

pub names-append :
    (xs ys : List XunitTestCaseComparison)
    → map (λ c. c.name) (xs ++ ys) ≡ map (λ c. c.name) xs ++ map (λ c. c.name) ys
names-append [] ys = refl
names-append (x ∷ xs) ys = ap (λ l. x.name ∷ l) (names-append xs ys)

module _ (key : String) where
  append_to-stays :
      (r : ComparisonResult) (c : XunitTestCaseComparison) (o : XunitComparison)
      → contains (regressions o) key ≡ true
      → contains (regressions (append_to r c o)) key ≡ true
  append_to-stays ComparisonResult.works c o h = h
  append_to-stays ComparisonResult.regression c o h =
      rw (names-append o.regression (c ∷ []))
        (contains-append_left (regressions o) (c.name ∷ []) key h)
  append_to-stays ComparisonResult.fixed c o h = h
  append_to-stays ComparisonResult.broken c o h = h
  append_to-stays ComparisonResult.difference c o h = h

  append_to-regression :
      (r : ComparisonResult) (c : XunitTestCaseComparison) (o : XunitComparison)
      → r ≡ ComparisonResult.regression
      → c.name == key ≡ true
      → contains (regressions (append_to r c o)) key ≡ true
  append_to-regression r c o e h =
      rw (e, names-append o.regression (c ∷ []))
        (contains-append_right (regressions o) (c.name ∷ []) key (or_left _ _ h))

  compare_key-stays :
      (arch : String) (a b : Option XunitTestCase) (o : XunitComparison)
      → contains (regressions o) key ≡ true
      → contains (regressions (compare_key arch a b o)) key ≡ true
  unfolding compare_key compare_case
  compare_key-stays arch (some a) b o h = append_to-stays _ _ _ h
  compare_key-stays arch none (some b) o h = append_to-stays _ _ _ h
  compare_key-stays arch none none o h = h

  compare_keys-stays :
      (suite_a suite_b : XunitTestSuite) (keys : List String) (o : XunitComparison)
      → contains (regressions o) key ≡ true
      → contains (regressions (compare_keys suite_a suite_b keys o)) key ≡ true
  unfolding compare_keys
  compare_keys-stays suite_a suite_b [] o h = h
  compare_keys-stays suite_a suite_b (k ∷ keys) o h =
      compare_keys-stays suite_a suite_b keys _ (compare_key-stays suite_a.arch _ _ o h)

  classify-regression :
      (a b : XunitTestCaseResult) → Passed a → Failed b → classify a b ≡ ComparisonResult.regression
  unfolding classify
  classify-regression a b passed (inl failed) = rw (passed, failed) refl
  classify-regression a b passed (inr failed) = rw (passed, failed) refl

  compare_key-finds :
      (arch : String) (a b : XunitTestCase) (found_a found_b : Option XunitTestCase)
      → (o : XunitComparison) → found_a ≡ some a
      → found_b ≡ some b
      → a.name == key ≡ true
      → Passed a.result
      → Failed b.result
      → contains (regressions (compare_key arch found_a found_b o)) key ≡ true
  unfolding compare_key compare_case
  compare_key-finds arch a b found_a found_b o e_a e_b named passed failed =
      rw (e_a, e_b)
        (append_to-regression _ _
          (record o { total_counts = one_more (classify a.result b.result) o.total_counts })
          (classify-regression a.result b.result passed failed) named)

  module _ (suite_a suite_b : XunitTestSuite) (a b : XunitTestCase) where
    compare_keys-finds :
        (keys : List String) (o : XunitComparison)
        → last_named key suite_a.test_cases ≡ some a
        → last_named key suite_b.test_cases ≡ some b
        → Passed a.result
        → Failed b.result
        → contains keys key ≡ true
        → contains (regressions (compare_keys suite_a suite_b keys o)) key ≡ true
    unfolding compare_keys
    compare_keys-finds [] o found_a found_b passed failed h = cc
    compare_keys-finds (k ∷ keys) o found_a found_b passed failed h =
        elim (or_cases (k == key) (contains keys key) h) [
          | inr there ↦ compare_keys-finds keys _ found_a found_b passed failed there
          | inl here ↦
              let same = (eq_iff k key).0 here in
              compare_keys-stays suite_a suite_b keys _ (
                compare_key-finds suite_a.arch a b _ _ o
                  (ap (λ s. last_named s suite_a.test_cases) same ∙ found_a)
                  (ap (λ s. last_named s suite_b.test_cases) same ∙ found_b)
                  (last_named-name key suite_a.test_cases a found_a).0 passed failed)
        ]

-- No regression is missed: when the last case of a name passed in the first suite, and the last
-- case of that name failed or errored in the second, the report lists a regression of that name.
pub compare_test_suites-finds :
    (suite_a suite_b : XunitTestSuite) (output : XunitComparison) (key : String)
    → (a b : XunitTestCase) → last_named key suite_a.test_cases ≡ some a
    → last_named key suite_b.test_cases ≡ some b
    → Passed a.result
    → Failed b.result
    → contains (regressions (compare_test_suites suite_a suite_b output)) key ≡ true
unfolding compare_test_suites
compare_test_suites-finds suite_a suite_b output key a b found_a found_b passed failed =
    compare_keys-finds key suite_a suite_b a b _ output found_a found_b passed failed (
      contains-distinct _ key (
        contains-append_left (names_of suite_a.test_cases) (names_of suite_b.test_cases) key
          (last_named-name key suite_a.test_cases a found_a).1))
