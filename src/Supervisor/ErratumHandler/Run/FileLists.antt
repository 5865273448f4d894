-- ===== src/Supervisor/ErratumHandler/Run/FileLists.antt =====
-- What the check of the file lists before REL_PREP establishes.
use ai_workflows.Common.{
  ℕ, zero, suc, String, ◌≡◌, refl, ap, ◌∙◌, inl, inr, Bool, true, false, Option, none, some, List,
  [], ◌∷◌, All, if◌then◌else◌,
}
use ai_workflows.Effects.{ok, raised, exn, key_error}
use ai_workflows.Effects.Preserves.{
  Returns, Returns-bind, Returns-bind_value, Returns-pure, Returns-ask, Returns-lift,
  Returns-weaken, Returns-test, ok-injective,
}
use ai_workflows.Supervisor.Types.{Erratum}
use ai_workflows.Supervisor.Requests.{Log}
use ai_workflows.Supervisor.Services.{Services, ErratumBuild}
use ai_workflows.Supervisor.Errata
use ai_workflows.Supervisor.Errata.{in_comments}
use ai_workflows.Supervisor.ErratumHandler.Lists.{lookup, compare_file_lists}
use ai_workflows.Supervisor.ErratumHandler.Advance
use ai_workflows.Supervisor.ErratumHandler.Advance.{build_of, checked_mark}
use ai_workflows.Supervisor.ErratumHandler.Run.Permission.{Checked, marked, first_one, matched}

build_of-lookup :
    (pkg : String) (builds : List (String × ErratumBuild)) (b : ErratumBuild)
    → build_of pkg builds ≡ ok b
    → lookup pkg builds ≡ some b
unfolding build_of
build_of-lookup pkg builds b e = by_lookup (lookup pkg builds) e
  where
    by_lookup :
        (o : Option ErratumBuild)
        → elim o [ none ↦ raised (exn key_error pkg) | some b ↦ ok b ] ≡ ok b
        → o ≡ some b
    by_lookup none h = cc
    by_lookup (some c) h = ap some (ok-injective h)

empty_if :
    (b : Bool) (x : String) (xs : List String)
    → (if b then xs else x ∷ xs) ≡ []
    → (b ≡ true) × (xs ≡ [])
empty_if true x xs e = (refl, e)
empty_if false x xs e = cc

module _ (services : Services) (dry_run : Bool) (erratum : Erratum) where
  has_magic_string-reads :
      (magic : String)
      → Returns
          (λ b.
            (log : Log) × (comments : Option (List String)) × (services.erratum_comments log
                erratum.id
              ≡ ok comments)
            × (in_comments magic comments ≡ b))
          (Errata.erratum_has_magic_string_in_comments services erratum.id magic)
  unfolding Errata.erratum_has_magic_string_in_comments
  has_magic_string-reads magic =
      Returns-bind_value _ _ (Returns-ask _)
        (λ comments answer. Returns-pure _ (answer.0, comments, answer.1, refl))

  already_checked-Checked :
      (pkg : String) (build : ErratumBuild)
      → Returns
          (λ b. b ≡ true → Checked services erratum (pkg, build))
          (Advance.already_checked services dry_run erratum build.nvr)
  unfolding Advance.already_checked
  already_checked-Checked pkg build =
      Returns-bind_value _ _ (has_magic_string-reads (checked_mark "ymir" build.nvr)) (λ ymir read.
        Returns-test ymir _ _
          (λ found.
            Returns-pure _ (λ _. marked pkg build read.0 read.1 read.2 (inl (read.3 ∙ found))))
          (λ _.
            Returns-weaken _ (has_magic_string-reads (checked_mark "jotnar" build.nvr))
              (λ b read' found. marked pkg build read'.0 read'.1 read'.2 (inr (read'.3 ∙ found)))))

  -- What holds when no package is reported.
  abbrev pub Clean : List (String × ErratumBuild) → List String → Type 0
  Clean builds ms = ms ≡ [] → All (Checked services erratum) builds

  module _ (pkg : String) (build : ErratumBuild) (builds : List (String × ErratumBuild))
      (others : Advance.Mismatches) (rest : Returns (Clean builds) others) where
    with_others :
        Checked services erratum (pkg, build) → Returns (Clean ((pkg, build) ∷ builds)) others
    with_others c = Returns-weaken _ rest (λ ms clean e. (c, clean e))

    no_previous-Clean :
        Checked services erratum (pkg, build)
        → Returns
            (Clean ((pkg, build) ∷ builds))
            (Advance.no_previous services dry_run erratum build.nvr others)
    unfolding Advance.no_previous
    no_previous-Clean c = Returns-bind _ _ (λ _. with_others c)

    compare_with-Clean :
        (log : Log) (prev : ℕ)
        → services.previous_erratum log erratum.id pkg ≡ ok (some prev)
        → Returns
            (Clean ((pkg, build) ∷ builds))
            (Advance.compare_with services dry_run erratum pkg build prev others)
    unfolding Advance.compare_with compare_file_lists
    compare_with-Clean log prev e = Returns-bind_value _ _ (Returns-ask _) (λ old answer.
        Returns-bind_value _ _ (Returns-lift _) (λ previous found. Returns-bind _ _ (λ _.
          Returns-bind_value _ _ rest (λ ms clean. Returns-pure _ (λ none_reported.
            let (same, empty) = empty_if _ pkg ms none_reported in
            (
              matched pkg build previous log answer.0 prev old e answer.1
                  (build_of-lookup pkg old previous found) same,
              clean empty,
            ))))))

    check_against-Clean :
        (log : Log) (prev : Option ℕ)
        → services.previous_erratum log erratum.id pkg ≡ ok prev
        → Returns
            (Clean ((pkg, build) ∷ builds))
            (Advance.check_against services dry_run erratum pkg build prev others)
    unfolding Advance.check_against
    check_against-Clean log none e = no_previous-Clean (first_one pkg build log none e (inl refl))
    check_against-Clean log (some zero) e =
        no_previous-Clean (first_one pkg build log (some 0) e (inr refl))
    check_against-Clean log (some (suc n)) e = compare_with-Clean log (suc n) e

    check_package-Clean :
        Returns
          (Clean ((pkg, build) ∷ builds))
          (Advance.check_package services dry_run erratum pkg build others)
    unfolding Advance.check_package
    check_package-Clean = Returns-bind_value _ _ (already_checked-Checked pkg build) (λ b checked.
        Returns-test b _ _ (λ found. with_others (checked found))
          (λ _.
            Returns-bind_value _ _ (Returns-ask _)
              (λ prev answer. check_against-Clean answer.0 prev answer.1)))

  -- When no package is reported, the file list of every package is checked.
  pub mismatch_packages-Clean :
      (builds : List (String × ErratumBuild))
      → Returns (Clean builds) (Advance.mismatch_packages services dry_run erratum builds)
  unfolding Advance.mismatch_packages
  mismatch_packages-Clean [] = Returns-pure _ (λ _. tt)
  mismatch_packages-Clean (b ∷ bs) = check_package-Clean b.0 b.1 bs _ (mismatch_packages-Clean bs)
