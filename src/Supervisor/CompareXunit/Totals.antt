-- ===== src/Supervisor/CompareXunit/Totals.antt =====
-- Every test of the two suites is counted once.
use ai_workflows.Common.{
  ℕ, suc, ◌+◌, String, true, Option, none, some, is_some, List, [], ◌∷◌, ◌≡◌, ◌⊎◌, inl, inr, length,
  All, arith,
}
use ai_workflows.Supervisor.CompareXunit.{
  XunitTestCase, XunitTestSuite, XunitComparison, compare_key, compare_keys, compare_test_suites,
  last_named, all_keys,
}
use ai_workflows.Supervisor.CompareXunit.Counts.{sum_of, compare_case-sum_of}
use ai_workflows.Supervisor.CompareXunit.Names.{all_keys-found}

compare_key-sum_of :
    (arch : String) (a b : Option XunitTestCase) (o : XunitComparison)
    → (is_some a ≡ true) ⊎ (is_some b ≡ true)
    → sum_of (compare_key arch a b o).total_counts ≡ sum_of o.total_counts + 1
unfolding compare_key
compare_key-sum_of arch (some a) b o found = compare_case-sum_of arch (some a) b a o
compare_key-sum_of arch none (some b) o found = compare_case-sum_of arch none (some b) b o
compare_key-sum_of arch none none o (inl h) = cc
compare_key-sum_of arch none none o (inr h) = cc

one_and_rest : (a n : ℕ) {s r : ℕ} → s ≡ a + 1 → r ≡ s + n → r ≡ a + suc n
one_and_rest a n h k = omega arith

compare_keys-sum_of :
    (suite_a suite_b : XunitTestSuite) (keys : List String) (o : XunitComparison)
    → All
        (λ key.
          (is_some (last_named key suite_a.test_cases) ≡ true)
          ⊎ (is_some (last_named key suite_b.test_cases) ≡ true))
        keys
    → sum_of (compare_keys suite_a suite_b keys o).total_counts
      ≡ sum_of o.total_counts + length keys
unfolding compare_keys
compare_keys-sum_of suite_a suite_b [] o found = omega arith
compare_keys-sum_of suite_a suite_b (key ∷ keys) o (here, found) =
    let o' =
      compare_key suite_a.arch (last_named key suite_a.test_cases)
        (last_named key suite_b.test_cases) o in
    one_and_rest (sum_of o.total_counts) (length keys) (compare_key-sum_of suite_a.arch _ _ o here)
      (compare_keys-sum_of suite_a suite_b keys o' found)

-- Comparing two suites raises the sum of the five counts by the number of names that the test
-- cases of the two suites have, a name that stands in both or several times being counted once.
pub compare_test_suites-sum_of :
    (suite_a suite_b : XunitTestSuite) (output : XunitComparison)
    → sum_of (compare_test_suites suite_a suite_b output).total_counts
      ≡ sum_of output.total_counts + length (all_keys suite_a suite_b)
unfolding compare_test_suites
compare_test_suites-sum_of suite_a suite_b output =
    compare_keys-sum_of suite_a suite_b _ output (all_keys-found suite_a suite_b)
