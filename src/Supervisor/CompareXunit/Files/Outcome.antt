-- ===== src/Supervisor/CompareXunit/Files/Outcome.antt =====
-- When the comparison of two files gives a report, what is in it, and when it refuses.
use ai_workflows.Common.{
  ℕ, ◌+◌, or_left, or_right, String, true, Option, some, List, [], ◌∷◌, ◌++◌, ◌≡◌, ◌⊎◌, inl, inr,
  refl, sym, subst, ap, ◌∙◌, length, map, any, All, Bool-cases, append_append, arith,
}
use ai_workflows.Effects.{Result, ok, raised, Exn, ExnKind}
use ai_workflows.Supervisor.CompareXunit.{
  XunitTestSuite, XunitComparison, compare_test_suites, all_keys,
}
use ai_workflows.Supervisor.CompareXunit.Counts.{
  IsConsistent, sum_of, compare_test_suites-IsConsistent,
}
use ai_workflows.Supervisor.CompareXunit.Totals.{compare_test_suites-sum_of}
use ai_workflows.Supervisor.CompareXunit.Regressions.{regressions}
use ai_workflows.Supervisor.CompareXunit.Listed.{
  regressed_names, append_nil, compare_test_suites-regressions,
}
use ai_workflows.Supervisor.CompareXunit.Files.{
  SuiteKey, suite_key, same_key, distinct_keys, test_suite_keys, same_keys, first_suite,
  different_suites, compare_found, compare_suites, empty_report, compare_parsed,
  compare_xunit_files, metadata_or_empty,
}
use ai_workflows.Supervisor.CompareXunit.Files.Keys.{
  is_in, SameSuites, DifferentSuites, same_key_refl, same_keys-SameSuites,
  same_keys-DifferentSuites, Found, first_suite-Found,
}

-- The number of names of a pair of suites, and those that have regressed.
abbrev pub tests_of : Option XunitTestSuite → Option XunitTestSuite → ℕ
tests_of (some a) (some b) = length (all_keys a b)
tests_of _ _ = 0

abbrev pub worse_of : Option XunitTestSuite → Option XunitTestSuite → List String
worse_of (some a) (some b) = regressed_names a b (all_keys a b)
worse_of _ _ = []

module _ (suites_a suites_b : List XunitTestSuite) where
  -- The same over the suites of two files.
  abbrev pub number_of_tests : List SuiteKey → ℕ
  number_of_tests [] = 0
  number_of_tests (key ∷ keys) =
      tests_of (first_suite key suites_a) (first_suite key suites_b) + number_of_tests keys

  abbrev pub all_regressed : List SuiteKey → List String
  all_regressed [] = []
  all_regressed (key ∷ keys) =
      worse_of (first_suite key suites_a) (first_suite key suites_b) ++ all_regressed keys

  -- A report that comes from another one by the comparison of the suites of some keys.
  abbrev Compared : List SuiteKey → XunitComparison → Result XunitComparison → Type 0
  Compared keys output r =
      (report : XunitComparison) × (r ≡ ok report)
      × IsConsistent report
      × (sum_of report.total_counts ≡ sum_of output.total_counts + number_of_tests keys)
      × (regressions report ≡ regressions output ++ all_regressed keys)

  pair-Compared :
      (a b : XunitTestSuite) (key : SuiteKey) (keys : List SuiteKey) (output : XunitComparison)
      → first_suite key suites_a ≡ some a
      → first_suite key suites_b ≡ some b
      → (r : Result XunitComparison) → Compared keys (compare_test_suites a b output) r
      → Compared (key ∷ keys) output r
  pair-Compared a b key keys output e_a e_b r (report, e, h, total, names) = (
    report,
    e,
    h,
    rw (e_a, e_b) (omega (arith, total, compare_test_suites-sum_of a b output)),
    rw (e_a, e_b)
        (names
          ∙ ap (λ l. l ++ all_regressed keys) (compare_test_suites-regressions a b output)
          ∙ append_append (regressions output) (regressed_names a b (all_keys a b))
              (all_regressed keys)),
  )

  both_found :
      {a b : XunitTestSuite} (found_a found_b : Option XunitTestSuite) (output : XunitComparison)
      → found_a ≡ some a
      → found_b ≡ some b
      → compare_found found_a found_b output ≡ ok (compare_test_suites a b output)
  both_found found_a found_b output e_a e_b = rw (e_a, e_b) refl

  compare_suites-Compared :
      (keys : List SuiteKey) (output : XunitComparison)
      → All (Found suites_a) keys
      → All (Found suites_b) keys
      → IsConsistent output
      → Compared keys output (compare_suites suites_a suites_b keys (ok output))
  unfolding compare_suites
  compare_suites-Compared [] output in_a in_b h =
      (output, refl, h, omega arith, sym (append_nil (regressions output)))
  compare_suites-Compared (key ∷ keys) output ((a, e_a), in_a) ((b, e_b), in_b) h =
      subst (λ r. Compared (key ∷ keys) output (compare_suites suites_a suites_b keys r))
        (sym (both_found _ _ output e_a e_b))
        (pair-Compared a b key keys output e_a e_b _ (
          compare_suites-Compared keys (compare_test_suites a b output) in_a in_b
            (compare_test_suites-IsConsistent a b output h)))

-- The keys of the suites find suites.
distinct_keys-All :
    (P : SuiteKey → Type 0) (keys : List SuiteKey) → All P keys → All P (distinct_keys keys)
distinct_keys-All P [] h = h
distinct_keys-All P (key ∷ keys) (p, h) =
    elim (Bool-cases (any (same_key key) (distinct_keys keys))) [
      | inl again ↦ rw again (distinct_keys-All P keys h)
      | inr new ↦ rw new (p, distinct_keys-All P keys h)
    ]

own_keys :
    (P : SuiteKey → Type 0) (keys : List SuiteKey)
    → ((key : SuiteKey) → any (same_key key) keys ≡ true → P key)
    → All P keys
own_keys P [] h = tt
own_keys P (key ∷ keys) h = (
  h key (or_left _ _ (same_key_refl key)),
  own_keys P keys (λ k there. h k (or_right (same_key k key) _ there)),
)

keys-Found :
    (suites others : List XunitTestSuite)
    → ((key : SuiteKey) → is_in suites key ≡ true → is_in others key ≡ true)
    → All (Found others) (test_suite_keys suites)
keys-Found suites others h = distinct_keys-All (Found others) (map suite_key suites) (
    own_keys (Found others) (map suite_key suites)
      (λ key there. first_suite-Found key others (h key there)))

-- A report on two files: the five counts add up to the number of names that the tests of each
-- suite have in the two files, and the regressions are those names that have regressed.
abbrev pub Reported : List XunitTestSuite → List XunitTestSuite → XunitComparison → Type 0
Reported suites_a suites_b report =
    IsConsistent report
    × (sum_of report.total_counts ≡ number_of_tests suites_a suites_b (test_suite_keys suites_a))
    × (regressions report ≡ all_regressed suites_a suites_b (test_suite_keys suites_a))

compare_parsed-Reported :
    (suites_a suites_b : List XunitTestSuite) (metadata : List (String × String))
    → same_keys suites_a suites_b ≡ true
    → SameSuites suites_a suites_b
    → (report : XunitComparison) × (compare_parsed suites_a suites_b metadata ≡ ok report)
      × Reported suites_a suites_b report
unfolding compare_parsed
compare_parsed-Reported suites_a suites_b metadata same agree =
    let (report, e, h, total, names) =
      compare_suites-Compared suites_a suites_b (test_suite_keys suites_a) (empty_report metadata)
        (keys-Found suites_a suites_a (λ key there. there))
        (keys-Found suites_a suites_b (λ key there. sym (agree key) ∙ there))
        (refl, refl, refl, refl, tt, tt, tt) in
    (report, rw same e, (h, omega (arith, total), names))

-- Two files that parse either have the same suites, by name and architecture, or one has a suite
-- that the other has not. In the first case there is a report, in which the counts are the
-- lengths of the lists, each listed regression, fixed test and broken test has the results that
-- its list asks for, the five counts add up to the number of test names of each suite in the two
-- files, and the regressions are, in order, those names whose last case passed in the first file
-- and failed or errored in the second. In the other case the comparison raises a ValueError.
pub compare_xunit_files-compares :
    (suites_a suites_b : List XunitTestSuite) (metadata : Option (List (String × String)))
    → (SameSuites suites_a suites_b
        × ((report : XunitComparison) × (compare_xunit_files (ok suites_a) (ok suites_b) metadata
              ≡ ok report)
            × Reported suites_a suites_b report))
      ⊎ (DifferentSuites suites_a suites_b
          × ((e : Exn) × (compare_xunit_files (ok suites_a) (ok suites_b) metadata ≡ raised e)
              × (e.kind ≡ ExnKind.value_error)))
unfolding compare_xunit_files compare_parsed
compare_xunit_files-compares suites_a suites_b metadata =
    elim (Bool-cases (same_keys suites_a suites_b)) [
      | inl same ↦
          let agree = same_keys-SameSuites suites_a suites_b same in
          inl (
            agree,
            compare_parsed-Reported suites_a suites_b (metadata_or_empty metadata) same agree,
          )
      | inr differs ↦ inr (
        same_keys-DifferentSuites suites_a suites_b differs,
        (different_suites, rw differs refl, refl),
      )
    ]
