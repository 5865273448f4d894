-- ===== src/IssueFetcher/Consolidate/Sorted.antt =====
-- The buckets hold issues whose labels a Red Hat employee added.
use ai_workflows.Common.{
  Some, some_of, ℕ, String, ◌<>◌, Bool, true, false, Option, none, some, List, [], ◌∷◌, ◌≡◌, inl,
  inr, refl, contains, ◌==◌, Bool-cases, All,
}
use ai_workflows.Effects.{Result, ok, raised, after}
use ai_workflows.Constants.{JiraLabel, label}
use ai_workflows.MergeQueue.Job.{consolidation_field_key, Json}
use ai_workflows.MergeQueue.Submit.{waiting_job}
use ai_workflows.IssueFetcher.Types.{FoundIssue, Settings, Events, Services, is_request_exception}
use ai_workflows.IssueFetcher.Author.{label_added_by_rh_employee}
use ai_workflows.IssueFetcher.Consolidate.{
  Entry, Bucket, put, Buckets, Check, check_of, first_component, resolve_branch_from_fix_versions,
  put_if, file_issue, check, drop_labels, after_base, only_base, then_next, base_checked,
  sort_issue, sort_issues,
}

cons_nil : {A : Type 0} {x : A} {xs : List A} → x ∷ xs ≡ [] → ⊥
cons_nil h = cc

module _ (services : Services) where
  -- An issue has a label, and a Red Hat employee added it.
  abbrev pub IsVerified : JiraLabel → FoundIssue → Type 0
  IsVerified l issue =
      (contains issue.labels (label l) ≡ true)
      × ((log : Events) × (label_added_by_rh_employee services log issue.key (label l) ≡ ok true))

  -- The entry is that of an issue, which has the label.
  abbrev pub IsEntry : JiraLabel → Entry → FoundIssue → Type 0
  IsEntry l e issue =
      (issue.key ≡ e.key)
      × (first_component issue.components ≡ some e.component)
      × (resolve_branch_from_fix_versions issue.fix_versions ≡ some e.branch)
      × IsVerified l issue

  -- The field is the pending one for the package and branch of two entries, and its value is the
  -- text of a job that is to consolidate these two.
  abbrev pub IsPair : Json → List FoundIssue → String → String → Type 0
  IsPair json issues field value =
      (base : Entry) × (next : Entry) × (now : ℕ) × (field
        ≡ consolidation_field_key base.component base.branch "pending")
      × (value
          ≡ json.model_dump_json
              (waiting_job now base.component base.branch (some (base.key ∷ next.key ∷ [])) none))
      × (base.component <> (":" <> base.branch) ≡ next.component <> (":" <> next.branch))
      × Some (IsEntry JiraLabel.consolidate_base base) issues
      × Some (IsEntry JiraLabel.consolidate_next next) issues

module _ (services : Services) (settings : Settings) (all : List FoundIssue) where
  abbrev pub Filed : JiraLabel → String × Entry → Type 0
  Filed l (k, e) = (k ≡ e.component <> (":" <> e.branch)) × Some (IsEntry services l e) all

  abbrev pub Sorted : Buckets → Type 0
  Sorted b =
      All (Filed JiraLabel.consolidate_base) b.base × All (Filed JiraLabel.consolidate_next) b.next

  put-Filed :
      (l : JiraLabel) (k : String) (e : Entry) (bucket : Bucket)
      → Filed l (k, e)
      → All (Filed l) bucket
      → All (Filed l) (put k e bucket)
  put-Filed l k e [] p h = (p, tt)
  put-Filed l k e ((j, d) ∷ bucket) p (q, h) = elim (Bool-cases (j == k)) [
    | inl same ↦ rw same (p, h)
    | inr other ↦ rw other (q, put-Filed l k e bucket p h)
  ]

  put_if-Filed :
      (b : Bool) (l : JiraLabel) (k : String) (e : Entry) (bucket : Bucket)
      → (b ≡ true → Filed l (k, e))
      → All (Filed l) bucket
      → All (Filed l) (put_if b k e bucket)
  put_if-Filed true l k e bucket p h = put-Filed l k e bucket (p refl) h
  put_if-Filed false l k e bucket p h = h

  abbrev pub Own : FoundIssue → Type 0
  Own issue = Some (λ other. other ≡ issue) all

  entry_of :
      (l : JiraLabel) (issue : FoundIssue) (component branch : String)
      → Own issue
      → first_component issue.components ≡ some component
      → resolve_branch_from_fix_versions issue.fix_versions ≡ some branch
      → IsVerified services l issue
      → Some
          (IsEntry services l (record { key = issue.key; component = component; branch = branch }))
          all
  entry_of l issue component branch own c b v =
      some_of
        (IsEntry services l (record { key = issue.key; component = component; branch = branch }))
        issue all own (refl, c, b, v)

  file_issue-Sorted :
      (is_base is_next : Bool) (issue : FoundIssue) (component branch : Option String)
      → (buckets : Buckets) → Own issue
      → first_component issue.components ≡ component
      → resolve_branch_from_fix_versions issue.fix_versions ≡ branch
      → (is_base ≡ true → IsVerified services JiraLabel.consolidate_base issue)
      → (is_next ≡ true → IsVerified services JiraLabel.consolidate_next issue)
      → Sorted buckets
      → Sorted (file_issue is_base is_next issue.key component branch buckets)
  file_issue-Sorted is_base is_next issue none branch buckets own c b v w h = h
  file_issue-Sorted is_base is_next issue (some component) none buckets own c b v w h = h
  file_issue-Sorted is_base is_next issue (some component) (some branch) buckets own c b v w
        (h, k) =
      elim (Bool-cases (branch == "")) [
        | inl empty ↦ rw empty (h, k)
        | inr named ↦ rw named (
          put_if-Filed is_base JiraLabel.consolidate_base _ _ _
              (λ t.
                (refl, entry_of JiraLabel.consolidate_base issue component branch own c b (v t)))
              h,
          put_if-Filed is_next JiraLabel.consolidate_next _ _ _
              (λ t.
                (refl, entry_of JiraLabel.consolidate_next issue component branch own c b (w t)))
              k,
        )
      ]

  abbrev pub SortedResult : Result Buckets × Events → Type 0
  SortedResult (ok b, log) = Sorted b
  SortedResult (raised e, log) = Unit

  -- What a check says when it says `verified`.
  checked :
      (l : JiraLabel) (issue : FoundIssue) (log : Events)
      → contains issue.labels (label l) ≡ true
      → check services settings log issue.key l ≡ Check.verified
      → IsVerified services l issue
  checked l issue log there e =
      (there, (log, answer (label_added_by_rh_employee services log issue.key (label l)) e))
    where
      answer : (r : Result Bool) → check_of r ≡ Check.verified → r ≡ ok true
      answer (ok true) h = refl
      answer (ok false) h = cc
      answer (raised x) h = elim (Bool-cases (is_request_exception x)) [
        | inl skip ↦ let h' = rw skip at h in cc
        | inr bad ↦ let h' = rw bad at h in cc
      ]

  after_base-Sorted :
      (issue : FoundIssue) (is_base : Bool) (removed : List String) (buckets : Buckets)
      → (log : Events) (c : Check) → Own issue
      → (is_base ≡ true → IsVerified services JiraLabel.consolidate_base issue)
      → (c ≡ Check.verified → IsVerified services JiraLabel.consolidate_next issue)
      → Sorted buckets
      → SortedResult (after_base services settings issue is_base removed buckets log c)
  unfolding after_base drop_labels
  after_base-Sorted issue is_base removed buckets log Check.skipped own v w h = h
  after_base-Sorted issue is_base removed buckets log (Check.fatal e) own v w h = tt
  after_base-Sorted issue is_base [] buckets log Check.verified own v w h =
      file_issue-Sorted is_base true issue _ _ buckets own refl refl v (λ t. w refl) h
  after_base-Sorted issue is_base (l ∷ ls) buckets log Check.verified own v w h = h
  after_base-Sorted issue is_base [] buckets log Check.unverified own v w h = h
  after_base-Sorted issue is_base (l ∷ ls) buckets log Check.unverified own v w h = h

  only_base-Sorted :
      (issue : FoundIssue) (removed : List String) (buckets : Buckets) (log : Events)
      → Own issue
      → (removed ≡ [] → IsVerified services JiraLabel.consolidate_base issue)
      → Sorted buckets
      → SortedResult (only_base services settings issue removed buckets log)
  unfolding only_base drop_labels
  only_base-Sorted issue [] buckets log own v h =
      file_issue-Sorted true false issue _ _ buckets own refl refl (λ t. v refl) (λ t. cc) h
  only_base-Sorted issue (l ∷ ls) buckets log own v h = h

  then_next-Sorted :
      (issue : FoundIssue) (is_base : Bool) (removed : List String) (buckets : Buckets)
      → (log : Events) → Own issue
      → (is_base ≡ true → IsVerified services JiraLabel.consolidate_base issue)
      → (removed ≡ [] → IsVerified services JiraLabel.consolidate_base issue)
      → Sorted buckets
      → SortedResult (
          then_next services settings issue
            (contains issue.labels (label JiraLabel.consolidate_next))
            is_base
            removed
            buckets
            log)
  unfolding then_next
  then_next-Sorted issue is_base removed buckets log own v u h =
      elim (Bool-cases (contains issue.labels (label JiraLabel.consolidate_next))) [
        | inl next ↦ rw next (
            after_base-Sorted issue is_base removed buckets log _ own v
              (checked JiraLabel.consolidate_next issue log next) h)
        | inr other ↦ rw other (only_base-Sorted issue removed buckets log own u h)
      ]

  base_checked-Sorted :
      (issue : FoundIssue) (buckets : Buckets) (log : Events) (c : Check)
      → Own issue
      → (c ≡ Check.verified → IsVerified services JiraLabel.consolidate_base issue)
      → Sorted buckets
      → SortedResult (
          base_checked services settings issue
            (contains issue.labels (label JiraLabel.consolidate_next))
            buckets
            log
            c)
  unfolding base_checked
  base_checked-Sorted issue buckets log Check.verified own v h =
      then_next-Sorted issue true [] buckets log own (λ t. v refl) (λ t. v refl) h
  base_checked-Sorted issue buckets log Check.unverified own v h =
      then_next-Sorted issue false _ buckets log own (λ t. cc) (λ t. absurd (cons_nil t)) h
  base_checked-Sorted issue buckets log Check.skipped own v h = h
  base_checked-Sorted issue buckets log (Check.fatal e) own v h = tt

  sort_issue-Sorted :
      (issue : FoundIssue) (buckets : Buckets) (log : Events)
      → Own issue
      → Sorted buckets
      → SortedResult (sort_issue services settings issue buckets log)
  unfolding sort_issue
  sort_issue-Sorted issue buckets log own h = elim (Bool-cases (issue.key == "")) [
    | inl nameless ↦ rw nameless h
    | inr named ↦ elim (Bool-cases (contains issue.labels (label JiraLabel.consolidate_base))) [
      | inl base ↦
          rw (named, base)
            (base_checked-Sorted issue buckets log _ own
              (checked JiraLabel.consolidate_base issue log base) h)
      | inr other ↦ elim (Bool-cases (contains issue.labels (label JiraLabel.consolidate_next))) [
        | inl next ↦
            rw (named, other, next)
              (after_base-Sorted issue false [] buckets log _ own (λ t. cc)
                (checked JiraLabel.consolidate_next issue log next) h)
        | inr neither ↦ rw (named, other, neither) h
      ]
    ]
  ]

  then-Sorted :
      (issues : List FoundIssue) (first : Result Buckets × Events)
      → SortedResult first
      → ((b : Buckets) (log : Events)
          → Sorted b
          → SortedResult (sort_issues services settings issues b log))
      → SortedResult (after (sort_issues services settings issues) first.0 first.1)
  then-Sorted issues (ok b, log) h k = k b log h
  then-Sorted issues (raised e, log) h k = tt

  pub sort_issues-Sorted :
      (issues : List FoundIssue) (buckets : Buckets) (log : Events)
      → All Own issues
      → Sorted buckets
      → SortedResult (sort_issues services settings issues buckets log)
  unfolding sort_issues
  sort_issues-Sorted [] buckets log own h = h
  sort_issues-Sorted (issue ∷ issues) buckets log (own, owns) h =
      then-Sorted issues (sort_issue services settings issue buckets log)
        (sort_issue-Sorted issue buckets log own h)
        (λ b log' k. sort_issues-Sorted issues b log' owns k)
