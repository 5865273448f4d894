-- ===== src/Examples/ComparisonSteps.antt =====
-- Two reports of tests.
use ai_workflows.Common.{String, ◌⊎◌, true, none, [], ◌∷◌, ◌≡◌, contains, inr, refl}
use ai_workflows.Supervisor.CompareXunit.{
  XunitTestCaseResult, XunitTestCase, XunitTestSuite, XunitComparison, compare_test_suites,
}
use ai_workflows.Supervisor.CompareXunit.Regressions.{regressions, compare_test_suites-finds}
use ai_workflows.Supervisor.CompareXunit.Files.{empty_report, compare_xunit_files}
use ai_workflows.Supervisor.CompareXunit.Files.Keys.{SameSuites, DifferentSuites}
use ai_workflows.Supervisor.CompareXunit.Files.Outcome.{Reported, compare_xunit_files-compares}
use ai_workflows.Effects.{ok, raised, Exn, ExnKind}

abbrev test_case : String → XunitTestCaseResult → XunitTestCase
test_case name result = record {
  name = name;
  url = "u";
  ref = "main";
  log_url = "l";
  result = result;
}

abbrev smoke_before : XunitTestCase
smoke_before = test_case "/smoke" XunitTestCaseResult.pass

abbrev smoke_after : XunitTestCase
smoke_after = test_case "/smoke" XunitTestCaseResult.error

abbrev suite_before : XunitTestSuite
suite_before = record {
  arch = "x86_64";
  name = "plan";
  test_cases =
      test_case "/smoke" XunitTestCaseResult.fail
      ∷ smoke_before
      ∷ test_case "/gone" XunitTestCaseResult.pass
      ∷ [];
}

abbrev suite_after : XunitTestSuite
suite_after = record {
  arch = "x86_64";
  name = "plan";
  test_cases = test_case "/repaired" XunitTestCaseResult.fail ∷ smoke_after ∷ [];
}

abbrev report : XunitComparison
report = empty_report []

compare_test_suites-finds_example :
    contains (regressions (compare_test_suites suite_before suite_after report)) "/smoke" ≡ true
compare_test_suites-finds_example =
    compare_test_suites-finds suite_before suite_after report "/smoke" smoke_before smoke_after refl
      refl refl (inr refl)

compare_xunit_files-compares_example :
    (SameSuites (suite_before ∷ []) (suite_after ∷ [])
      × ((o : XunitComparison) × (compare_xunit_files
              (ok (suite_before ∷ []))
              (ok (suite_after ∷ []))
              none
            ≡ ok o)
          × Reported (suite_before ∷ []) (suite_after ∷ []) o))
    ⊎ (DifferentSuites (suite_before ∷ []) (suite_after ∷ [])
        × ((e : Exn) × (compare_xunit_files (ok (suite_before ∷ [])) (ok (suite_after ∷ [])) none
              ≡ raised e)
            × (e.kind ≡ ExnKind.value_error)))
compare_xunit_files-compares_example =
    compare_xunit_files-compares (suite_before ∷ []) (suite_after ∷ []) none
