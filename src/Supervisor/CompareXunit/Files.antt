-- ===== src/Supervisor/CompareXunit/Files.antt =====
-- `compare_xunit_files`, from what `parse_xunit` gives for the two files (or raises).
pub mod Keys
pub mod Outcome
use ai_workflows.Common.{
  String, Bool, true, false, ◌&&◌, ◌||◌, not, Option, none, some, List, [], ◌∷◌, map, any, all,
  ◌==◌, if◌then◌else◌,
}
use ai_workflows.Effects.{Result, ok, raised, Exn, exn, ExnKind}
use ai_workflows.Supervisor.CompareXunit.{XunitTestSuite, XunitComparison, compare_test_suites}

-- `(suite.name, suite.arch)`
abbrev pub SuiteKey : Type 0
SuiteKey = String × String

abbrev pub suite_key : XunitTestSuite → SuiteKey
suite_key suite = (suite.name, suite.arch)

abbrev pub has_key : SuiteKey → XunitTestSuite → Bool
has_key key suite = suite.name == key.0 && suite.arch == key.1

abbrev pub same_key : SuiteKey → SuiteKey → Bool
same_key key other = other.0 == key.0 && other.1 == key.1

-- The set of the keys, and whether two sets are equal.
abbrev pub distinct_keys : List SuiteKey → List SuiteKey
distinct_keys [] = []
distinct_keys (key ∷ keys) =
    let rest = distinct_keys keys in if any (same_key key) rest then rest else key ∷ rest

abbrev pub test_suite_keys : List XunitTestSuite → List SuiteKey
test_suite_keys suites = distinct_keys (map suite_key suites)

abbrev pub within : List SuiteKey → List SuiteKey → Bool
within keys others = all (λ key. any (same_key key) others) keys

unfoldable pub same_keys : List XunitTestSuite → List XunitTestSuite → Bool
same_keys suites_a suites_b =
    within (test_suite_keys suites_a) (test_suite_keys suites_b)
    && within (test_suite_keys suites_b) (test_suite_keys suites_a)

-- `next(suite for suite in suites if …)`
abbrev pub first_suite : SuiteKey → List XunitTestSuite → Option XunitTestSuite
first_suite key [] = none
first_suite key (suite ∷ suites) =
    let rest = first_suite key suites in if has_key key suite then some suite else rest

-- The comparison of a pair of suites; `next` raises StopIteration when there is none.
abbrev pub compare_found :
    Option XunitTestSuite → Option XunitTestSuite → XunitComparison → Result XunitComparison
compare_found (some suite_a) (some suite_b) output = ok (compare_test_suites suite_a suite_b output)
compare_found _ _ output = raised (exn ExnKind.other "StopIteration")

unfoldable pub compare_suites :
    List XunitTestSuite
    → List XunitTestSuite
    → List SuiteKey
    → Result XunitComparison
    → Result XunitComparison
compare_suites suites_a suites_b keys (raised e) = raised e
compare_suites suites_a suites_b [] (ok output) = ok output
compare_suites suites_a suites_b (key ∷ keys) (ok output) =
    compare_suites suites_a suites_b keys
      (compare_found (first_suite key suites_a) (first_suite key suites_b) output)

-- The report that the comparison starts from.
abbrev pub empty_report : List (String × String) → XunitComparison
empty_report metadata = record {
  status = record { generated = true; reason = some "Comparison generated successfully" };
  metadata = metadata;
  total_counts = record { works = 0; regression = 0; fixed = 0; broken = 0; difference = 0 };
  regression = [];
  fixed = [];
  broken = [];
  difference = [];
}

-- The list of the suites of both files, which the message ends with, is left out.
abbrev pub different_suites : Exn
different_suites =
    exn ExnKind.value_error "XUnit files contain different test suites and cannot be compared"

unfoldable pub compare_parsed :
    List XunitTestSuite → List XunitTestSuite → List (String × String) → Result XunitComparison
compare_parsed suites_a suites_b metadata =
    let compared =
      compare_suites suites_a suites_b (test_suite_keys suites_a) (ok (empty_report metadata)) in
    if not (same_keys suites_a suites_b) then raised different_suites else compared

-- The metadata is `{}` when none is given.
abbrev pub metadata_or_empty : Option (List (String × String)) → List (String × String)
metadata_or_empty none = []
metadata_or_empty (some metadata) = metadata

unfoldable pub compare_xunit_files :
    Result (List XunitTestSuite)
    → Result (List XunitTestSuite)
    → Option (List (String × String))
    → Result XunitComparison
compare_xunit_files (raised e) parsed_b metadata = raised e
compare_xunit_files (ok suites_a) (raised e) metadata = raised e
compare_xunit_files (ok suites_a) (ok suites_b) metadata =
    compare_parsed suites_a suites_b (metadata_or_empty metadata)
