-- ===== src/Supervisor/CompareXunit/Counts.antt =====
-- The counts of a comparison, its lists, and what stands in them.
use ai_workflows.Common.{
  ℕ, ◌+◌, String, Option, none, some, List, [], ◌∷◌, ◌++◌, ◌≡◌, ◌⊎◌, inl, inr, refl, length, All,
  All-append, arith,
}
use ai_workflows.Supervisor.CompareXunit.{
  XunitTestCaseResult, XunitTestCase, XunitTestSuite, ComparisonResult, XunitTestCaseComparison,
  XunitComparisonCounts, XunitComparison, classify, one_more, append_to, compare_case, compare_key,
  compare_keys, compare_test_suites, result_of,
}

abbrev pub Failed : XunitTestCaseResult → Type 0
Failed r = (r ≡ XunitTestCaseResult.fail) ⊎ (r ≡ XunitTestCaseResult.error)

abbrev pub Passed : XunitTestCaseResult → Type 0
Passed r = r ≡ XunitTestCaseResult.pass

-- What the two results of an entry of each list are.
abbrev pub IsRegression : XunitTestCaseComparison → Type 0
IsRegression c = Passed c.result_a × Failed c.result_b

abbrev pub IsFixed : XunitTestCaseComparison → Type 0
IsFixed c = Failed c.result_a × Passed c.result_b

abbrev pub IsBroken : XunitTestCaseComparison → Type 0
IsBroken c = Failed c.result_a × Failed c.result_b

-- The counts are the lengths of the lists, and each entry stands in its list by right.
abbrev pub IsConsistent : XunitComparison → Type 0
IsConsistent o =
    (o.total_counts.regression ≡ length o.regression)
    × (o.total_counts.fixed ≡ length o.fixed)
    × (o.total_counts.broken ≡ length o.broken)
    × (o.total_counts.difference ≡ length o.difference)
    × All IsRegression o.regression
    × All IsFixed o.fixed
    × All IsBroken o.broken

abbrev pub sum_of : XunitComparisonCounts → ℕ
sum_of c = c.works + (c.regression + (c.fixed + (c.broken + c.difference)))

length-snoc : {A : Type 0} (xs : List A) (x : A) → length (xs ++ (x ∷ [])) ≡ length xs + 1
length-snoc [] x = refl
length-snoc (y ∷ xs) x = let ih = length-snoc xs x in omega arith

All-snoc :
    {A : Type 0} (P : A → Type 0) (xs : List A) (x : A) → All P xs → P x → All P (xs ++ (x ∷ []))
All-snoc P xs x h p = All-append P xs (x ∷ []) h (p, tt)

-- What the classification means of the two results.
abbrev Justified : ComparisonResult → XunitTestCaseComparison → Type 0
Justified ComparisonResult.regression c = IsRegression c
Justified ComparisonResult.fixed c = IsFixed c
Justified ComparisonResult.broken c = IsBroken c
Justified _ c = Unit

count-length :
    (n : ℕ) {A : Type 0} (xs : List A) (x : A) → n ≡ length xs → n + 1 ≡ length (xs ++ (x ∷ []))
count-length n xs x h = let e = length-snoc xs x in omega arith

record_in-IsConsistent :
    (r : ComparisonResult) (c : XunitTestCaseComparison) (o : XunitComparison)
    → Justified r c
    → IsConsistent o
    → IsConsistent (append_to r c (record o { total_counts = one_more r o.total_counts }))
record_in-IsConsistent ComparisonResult.works c o j h = h
record_in-IsConsistent ComparisonResult.regression c o j (a, b, d, e, f, g, k) =
    (count-length _ o.regression c a, b, d, e, All-snoc IsRegression o.regression c f j, g, k)
record_in-IsConsistent ComparisonResult.fixed c o j (a, b, d, e, f, g, k) =
    (a, count-length _ o.fixed c b, d, e, f, All-snoc IsFixed o.fixed c g j, k)
record_in-IsConsistent ComparisonResult.broken c o j (a, b, d, e, f, g, k) =
    (a, b, count-length _ o.broken c d, e, f, g, All-snoc IsBroken o.broken c k j)
record_in-IsConsistent ComparisonResult.difference c o j (a, b, d, e, f, g, k) =
    (a, b, d, count-length _ o.difference c e, f, g, k)

sum_of-one_more :
    (r : ComparisonResult) (c : XunitTestCaseComparison) (o : XunitComparison)
    → sum_of (append_to r c (record o { total_counts = one_more r o.total_counts })).total_counts
      ≡ sum_of o.total_counts + 1
sum_of-one_more ComparisonResult.works c o = omega arith
sum_of-one_more ComparisonResult.regression c o = omega arith
sum_of-one_more ComparisonResult.fixed c o = omega arith
sum_of-one_more ComparisonResult.broken c o = omega arith
sum_of-one_more ComparisonResult.difference c o = omega arith

abbrev JustifiedBy : XunitTestCaseResult → XunitTestCaseResult → ComparisonResult → Type 0
JustifiedBy a b ComparisonResult.regression = Passed a × Failed b
JustifiedBy a b ComparisonResult.fixed = Failed a × Passed b
JustifiedBy a b ComparisonResult.broken = Failed a × Failed b
JustifiedBy a b _ = Unit

classify-JustifiedBy : (a b : XunitTestCaseResult) → JustifiedBy a b (classify a b)
unfolding classify
classify-JustifiedBy XunitTestCaseResult.pass XunitTestCaseResult.fail = (refl, inl refl)
classify-JustifiedBy XunitTestCaseResult.pass XunitTestCaseResult.error = (refl, inr refl)
classify-JustifiedBy XunitTestCaseResult.pass XunitTestCaseResult.pass = tt
classify-JustifiedBy XunitTestCaseResult.pass XunitTestCaseResult.skipped = tt
classify-JustifiedBy XunitTestCaseResult.pass XunitTestCaseResult.missing = tt
classify-JustifiedBy XunitTestCaseResult.fail XunitTestCaseResult.pass = (inl refl, refl)
classify-JustifiedBy XunitTestCaseResult.fail XunitTestCaseResult.fail = (inl refl, inl refl)
classify-JustifiedBy XunitTestCaseResult.fail XunitTestCaseResult.error = (inl refl, inr refl)
classify-JustifiedBy XunitTestCaseResult.fail XunitTestCaseResult.skipped = tt
classify-JustifiedBy XunitTestCaseResult.fail XunitTestCaseResult.missing = tt
classify-JustifiedBy XunitTestCaseResult.error XunitTestCaseResult.pass = (inr refl, refl)
classify-JustifiedBy XunitTestCaseResult.error XunitTestCaseResult.fail = (inr refl, inl refl)
classify-JustifiedBy XunitTestCaseResult.error XunitTestCaseResult.error = (inr refl, inr refl)
classify-JustifiedBy XunitTestCaseResult.error XunitTestCaseResult.skipped = tt
classify-JustifiedBy XunitTestCaseResult.error XunitTestCaseResult.missing = tt
classify-JustifiedBy XunitTestCaseResult.skipped b = tt
classify-JustifiedBy XunitTestCaseResult.missing b = tt

Justified-JustifiedBy :
    (r : ComparisonResult) (c : XunitTestCaseComparison)
    → JustifiedBy c.result_a c.result_b r
    → Justified r c
Justified-JustifiedBy ComparisonResult.works c j = j
Justified-JustifiedBy ComparisonResult.regression c j = j
Justified-JustifiedBy ComparisonResult.fixed c j = j
Justified-JustifiedBy ComparisonResult.broken c j = j
Justified-JustifiedBy ComparisonResult.difference c j = j

module _ (arch : String) (tc_a tc_b : Option XunitTestCase) where
  compare_case-IsConsistent :
      (tc : XunitTestCase) (o : XunitComparison)
      → IsConsistent o
      → IsConsistent (compare_case arch tc_a tc_b tc o)
  unfolding compare_case
  compare_case-IsConsistent tc o h =
      record_in-IsConsistent _ _ o
        (Justified-JustifiedBy _ _ (classify-JustifiedBy (result_of tc_a) (result_of tc_b))) h

  pub compare_case-sum_of :
      (tc : XunitTestCase) (o : XunitComparison)
      → sum_of (compare_case arch tc_a tc_b tc o).total_counts ≡ sum_of o.total_counts + 1
  unfolding compare_case
  compare_case-sum_of tc o = sum_of-one_more _ _ o

compare_key-IsConsistent :
    (arch : String) (a b : Option XunitTestCase) (o : XunitComparison)
    → IsConsistent o
    → IsConsistent (compare_key arch a b o)
unfolding compare_key
compare_key-IsConsistent arch (some a) b o h = compare_case-IsConsistent arch (some a) b a o h
compare_key-IsConsistent arch none (some b) o h = compare_case-IsConsistent arch none (some b) b o h
compare_key-IsConsistent arch none none o h = h

compare_keys-IsConsistent :
    (suite_a suite_b : XunitTestSuite) (keys : List String) (o : XunitComparison)
    → IsConsistent o
    → IsConsistent (compare_keys suite_a suite_b keys o)
unfolding compare_keys
compare_keys-IsConsistent suite_a suite_b [] o h = h
compare_keys-IsConsistent suite_a suite_b (key ∷ keys) o h =
    compare_keys-IsConsistent suite_a suite_b keys _ (compare_key-IsConsistent suite_a.arch _ _ o h)

-- Comparing two suites keeps a report consistent: the counts of the regressions, the fixed, the
-- broken and the different tests are the lengths of the lists; a listed regression passed before
-- and failed or errored after, a fixed test the other way round, and a broken test did so in both.
pub compare_test_suites-IsConsistent :
    (suite_a suite_b : XunitTestSuite) (output : XunitComparison)
    → IsConsistent output
    → IsConsistent (compare_test_suites suite_a suite_b output)
unfolding compare_test_suites
compare_test_suites-IsConsistent suite_a suite_b output h =
    compare_keys-IsConsistent suite_a suite_b _ output h
