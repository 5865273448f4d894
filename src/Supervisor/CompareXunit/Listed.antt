-- ===== src/Supervisor/CompareXunit/Listed.antt =====
-- The list of regressions, as the names of the tests that passed and then did not.
use ai_workflows.Common.{
  String, Bool, true, false, Option, none, some, List, [], ◌∷◌, ◌++◌, ◌≡◌, refl, sym, ap, ◌∙◌,
  if◌then◌else◌, eq_iff, append_append,
}
use ai_workflows.Supervisor.CompareXunit.{
  XunitTestCaseResult, XunitTestCase, XunitTestSuite, ComparisonResult, XunitTestCaseComparison,
  XunitComparison, classify, append_to, compare_case, compare_key, compare_keys, all_keys,
  compare_test_suites, last_named,
}
use ai_workflows.Supervisor.CompareXunit.Names.{last_named-name}
use ai_workflows.Supervisor.CompareXunit.Regressions.{regressions, names-append}

-- A pass, and then a failure or an error.
abbrev pub is_worse : XunitTestCaseResult → XunitTestCaseResult → Bool
is_worse XunitTestCaseResult.pass XunitTestCaseResult.fail = true
is_worse XunitTestCaseResult.pass XunitTestCaseResult.error = true
is_worse _ _ = false

abbrev pub has_regressed : Option XunitTestCase → Option XunitTestCase → Bool
has_regressed (some a) (some b) = is_worse a.result b.result
has_regressed _ _ = false

-- The names whose cases have regressed from the first suite to the second.
abbrev pub regressed_names : XunitTestSuite → XunitTestSuite → List String → List String
regressed_names suite_a suite_b [] = []
regressed_names suite_a suite_b (key ∷ keys) =
    (if has_regressed (last_named key suite_a.test_cases) (last_named key suite_b.test_cases)
      then key ∷ []
      else [])
    ++ regressed_names suite_a suite_b keys

abbrev is_regression : ComparisonResult → Bool
is_regression ComparisonResult.regression = true
is_regression _ = false

pub append_nil : {A : Type 0} (xs : List A) → xs ++ [] ≡ xs
append_nil [] = refl
append_nil (x ∷ xs) = ap (λ l. x ∷ l) (append_nil xs)

append_to-regressions :
    (r : ComparisonResult) (c : XunitTestCaseComparison) (o : XunitComparison)
    → regressions (append_to r c o) ≡ regressions o ++ (if is_regression r then c.name ∷ [] else [])
append_to-regressions ComparisonResult.works c o = sym (append_nil (regressions o))
append_to-regressions ComparisonResult.regression c o = names-append o.regression (c ∷ [])
append_to-regressions ComparisonResult.fixed c o = sym (append_nil (regressions o))
append_to-regressions ComparisonResult.broken c o = sym (append_nil (regressions o))
append_to-regressions ComparisonResult.difference c o = sym (append_nil (regressions o))

classify-is_worse : (a b : XunitTestCaseResult) → is_regression (classify a b) ≡ is_worse a b
unfolding classify
classify-is_worse XunitTestCaseResult.pass XunitTestCaseResult.pass = refl
classify-is_worse XunitTestCaseResult.pass XunitTestCaseResult.fail = refl
classify-is_worse XunitTestCaseResult.pass XunitTestCaseResult.error = refl
classify-is_worse XunitTestCaseResult.pass XunitTestCaseResult.skipped = refl
classify-is_worse XunitTestCaseResult.pass XunitTestCaseResult.missing = refl
classify-is_worse XunitTestCaseResult.fail XunitTestCaseResult.pass = refl
classify-is_worse XunitTestCaseResult.fail XunitTestCaseResult.fail = refl
classify-is_worse XunitTestCaseResult.fail XunitTestCaseResult.error = refl
classify-is_worse XunitTestCaseResult.fail XunitTestCaseResult.skipped = refl
classify-is_worse XunitTestCaseResult.fail XunitTestCaseResult.missing = refl
classify-is_worse XunitTestCaseResult.error XunitTestCaseResult.pass = refl
classify-is_worse XunitTestCaseResult.error XunitTestCaseResult.fail = refl
classify-is_worse XunitTestCaseResult.error XunitTestCaseResult.error = refl
classify-is_worse XunitTestCaseResult.error XunitTestCaseResult.skipped = refl
classify-is_worse XunitTestCaseResult.error XunitTestCaseResult.missing = refl
classify-is_worse XunitTestCaseResult.skipped b = refl
classify-is_worse XunitTestCaseResult.missing b = refl

pass-missing : (a : XunitTestCaseResult) → is_worse a XunitTestCaseResult.missing ≡ false
pass-missing XunitTestCaseResult.pass = refl
pass-missing XunitTestCaseResult.fail = refl
pass-missing XunitTestCaseResult.error = refl
pass-missing XunitTestCaseResult.skipped = refl
pass-missing XunitTestCaseResult.missing = refl

-- What one comparison adds to the regressions.
added_if :
    (b c : Bool) (name key : String) (o : XunitComparison) (after : List String)
    → after ≡ regressions o ++ (if b then name ∷ [] else [])
    → b ≡ c
    → name ≡ key
    → after ≡ regressions o ++ (if c then key ∷ [] else [])
added_if b c name key o after h e n =
    h
    ∙ ap (λ x. regressions o ++ (if x then name ∷ [] else [])) e
    ∙ ap (λ x. regressions o ++ (if c then x ∷ [] else [])) n

compare_key-regressions :
    (arch key : String) (found_a found_b : Option XunitTestCase) (o : XunitComparison)
    → ((a : XunitTestCase) → found_a ≡ some a → a.name ≡ key)
    → regressions (compare_key arch found_a found_b o)
      ≡ regressions o ++ (if has_regressed found_a found_b then key ∷ [] else [])
unfolding compare_key compare_case
compare_key-regressions arch key (some a) (some b) o named =
    added_if _ _ a.name key o _ (append_to-regressions _ _ _) (classify-is_worse a.result b.result)
      (named a refl)
compare_key-regressions arch key (some a) none o named =
    added_if _ _ a.name key o _ (append_to-regressions _ _ _)
      (classify-is_worse a.result XunitTestCaseResult.missing ∙ pass-missing a.result)
      (named a refl)
compare_key-regressions arch key none (some b) o named =
    append_to-regressions _ _ _
    ∙ ap (λ x. regressions o ++ (if x then b.name ∷ [] else []))
        (classify-is_worse XunitTestCaseResult.missing b.result)
compare_key-regressions arch key none none o named = sym (append_nil (regressions o))

compare_keys-regressions :
    (suite_a suite_b : XunitTestSuite) (keys : List String) (o : XunitComparison)
    → regressions (compare_keys suite_a suite_b keys o)
      ≡ regressions o ++ regressed_names suite_a suite_b keys
unfolding compare_keys
compare_keys-regressions suite_a suite_b [] o = sym (append_nil (regressions o))
compare_keys-regressions suite_a suite_b (key ∷ keys) o =
    compare_keys-regressions suite_a suite_b keys _
    ∙ ap (λ l. l ++ regressed_names suite_a suite_b keys)
        (compare_key-regressions suite_a.arch key (last_named key suite_a.test_cases)
          (last_named key suite_b.test_cases) o
          (λ a e. (eq_iff a.name key).0 (last_named-name key suite_a.test_cases a e).0))
    ∙ append_append (regressions o) _ _

-- Comparing two suites adds to the list of regressions the names that have regressed, each once.
pub compare_test_suites-regressions :
    (suite_a suite_b : XunitTestSuite) (o : XunitComparison)
    → regressions (compare_test_suites suite_a suite_b o)
      ≡ regressions o ++ regressed_names suite_a suite_b (all_keys suite_a suite_b)
unfolding compare_test_suites
compare_test_suites-regressions suite_a suite_b o = compare_keys-regressions suite_a suite_b _ o
