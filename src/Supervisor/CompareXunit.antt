-- ===== src/Supervisor/CompareXunit.antt =====
-- ymir/supervisor/compare_xunit.py: the comparison of two reports of tests. What `parse_xunit`
-- gives is an argument; the sets of names and of suites are lists without repetitions.
pub mod Names
pub mod Counts
pub mod Totals
pub mod Regressions
pub mod Listed
pub mod Files
use ai_workflows.Common.{
  ℕ, ◌+◌, String, Bool, true, false, ◌&&◌, ◌||◌, not, Option, none, some, List, [], ◌∷◌, ◌++◌, map,
  contains, any, all, ◌==◌, if◌then◌else◌,
}
use ai_workflows.Effects.{Result, ok, raised, exn, ExnKind}

pub data XunitTestCaseResult : Type 0 where
  pass fail error skipped missing : XunitTestCaseResult

pub record XunitTestCase : Type 0 where
  pub name : String
  pub url : String
  pub ref : String
  pub log_url : String
  pub result : XunitTestCaseResult

pub record XunitTestSuite : Type 0 where
  pub arch : String
  pub name : String
  pub test_cases : List XunitTestCase

pub data ComparisonResult : Type 0 where
  works regression fixed broken difference : ComparisonResult

pub record XunitTestCaseComparison : Type 0 where
  pub name : String
  pub arch : String
  pub url : String
  pub ref : String
  pub result_a : XunitTestCaseResult
  pub result_b : XunitTestCaseResult
  pub log_url_a : String
  pub log_url_b : String

pub record XunitComparisonCounts : Type 0 where
  pub works : ℕ
  pub regression : ℕ
  pub fixed : ℕ
  pub broken : ℕ
  pub difference : ℕ

pub record XunitComparisonStatus : Type 0 where
  pub generated : Bool
  pub reason : Option String

pub record XunitComparison : Type 0 where
  pub status : XunitComparisonStatus
  pub metadata : List (String × String)
  pub total_counts : XunitComparisonCounts
  pub regression : List XunitTestCaseComparison
  pub fixed : List XunitTestCaseComparison
  pub broken : List XunitTestCaseComparison
  pub difference : List XunitTestCaseComparison

-- The chain of tests on the two results, with the group of `FAIL` and `ERROR` as one test.
abbrev pub is_pass : XunitTestCaseResult → Bool
is_pass XunitTestCaseResult.pass = true
is_pass _ = false

abbrev pub is_fail_or_error : XunitTestCaseResult → Bool
is_fail_or_error XunitTestCaseResult.fail = true
is_fail_or_error XunitTestCaseResult.error = true
is_fail_or_error _ = false

unfoldable pub classify : XunitTestCaseResult → XunitTestCaseResult → ComparisonResult
classify a b =
    if is_pass a && is_pass b
    then ComparisonResult.works
    else if is_pass a && is_fail_or_error b
    then ComparisonResult.regression
    else if is_fail_or_error a && is_pass b
    then ComparisonResult.fixed
    else if is_fail_or_error a && is_fail_or_error b
    then ComparisonResult.broken
    else ComparisonResult.difference

-- `setattr(output.total_counts, …, old_count + 1)`
abbrev pub one_more : ComparisonResult → XunitComparisonCounts → XunitComparisonCounts
one_more ComparisonResult.works c = record c { works = c.works + 1 }
one_more ComparisonResult.regression c = record c { regression = c.regression + 1 }
one_more ComparisonResult.fixed c = record c { fixed = c.fixed + 1 }
one_more ComparisonResult.broken c = record c { broken = c.broken + 1 }
one_more ComparisonResult.difference c = record c { difference = c.difference + 1 }

-- `getattr(output, …).append(comparison)`
abbrev pub append_to :
    ComparisonResult → XunitTestCaseComparison → XunitComparison → XunitComparison
append_to ComparisonResult.works c o = o
append_to ComparisonResult.regression c o = record o { regression = o.regression ++ (c ∷ []) }
append_to ComparisonResult.fixed c o = record o { fixed = o.fixed ++ (c ∷ []) }
append_to ComparisonResult.broken c o = record o { broken = o.broken ++ (c ∷ []) }
append_to ComparisonResult.difference c o = record o { difference = o.difference ++ (c ∷ []) }

-- `{tc.name: tc for tc in test_cases}.get(key)`: the last case of a name stays.
abbrev pub last_named : String → List XunitTestCase → Option XunitTestCase
last_named key [] = none
last_named key (tc ∷ tcs) = elim (last_named key tcs) [
  | some later ↦ some later
  | none ↦ if tc.name == key then some tc else none
]

-- `set(xs)`
abbrev pub distinct : List String → List String
distinct [] = []
distinct (x ∷ xs) = let rest = distinct xs in if contains rest x then rest else x ∷ rest

abbrev pub result_of : Option XunitTestCase → XunitTestCaseResult
result_of (some tc) = tc.result
result_of none = XunitTestCaseResult.missing

abbrev pub log_url_of : Option XunitTestCase → String
log_url_of (some tc) = tc.log_url
log_url_of none = ""

-- One comparison, `some_case` being given.
unfoldable pub compare_case :
    String
    → Option XunitTestCase
    → Option XunitTestCase
    → XunitTestCase
    → XunitComparison
    → XunitComparison
compare_case arch tc_a tc_b some_case output =
    let comparison_result = classify (result_of tc_a) (result_of tc_b) in
    append_to comparison_result
      (record {
        name = some_case.name;
        arch = arch;
        url = some_case.url;
        ref = some_case.ref;
        result_a = result_of tc_a;
        result_b = result_of tc_b;
        log_url_a = log_url_of tc_a;
        log_url_b = log_url_of tc_b;
      })
      (record output { total_counts = one_more comparison_result output.total_counts })

-- The body of the loop over the names, from the two cases of a name.
unfoldable pub compare_key :
    String → Option XunitTestCase → Option XunitTestCase → XunitComparison → XunitComparison
compare_key arch (some tc_a) tc_b output = compare_case arch (some tc_a) tc_b tc_a output
compare_key arch none (some tc_b) output = compare_case arch none (some tc_b) tc_b output
compare_key arch none none output = output

unfoldable pub compare_keys :
    XunitTestSuite → XunitTestSuite → List String → XunitComparison → XunitComparison
compare_keys suite_a suite_b [] output = output
compare_keys suite_a suite_b (key ∷ keys) output = compare_keys suite_a suite_b keys (
    compare_key suite_a.arch (last_named key suite_a.test_cases) (last_named key suite_b.test_cases)
      output)

abbrev pub names_of : List XunitTestCase → List String
names_of = map (λ tc. tc.name)

abbrev pub all_keys : XunitTestSuite → XunitTestSuite → List String
all_keys suite_a suite_b = distinct (names_of suite_a.test_cases ++ names_of suite_b.test_cases)

unfoldable pub compare_test_suites :
    XunitTestSuite → XunitTestSuite → XunitComparison → XunitComparison
compare_test_suites suite_a suite_b output =
    compare_keys suite_a suite_b (all_keys suite_a suite_b) output
