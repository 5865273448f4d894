-- ===== src/IssueFetcher/Consolidate/Verified.antt =====
-- Jobs are filed only for pairs whose labels a Red Hat employee added.
use ai_workflows.Common.{
  ℕ, String, ◌<>◌, Option, none, some, List, [], ◌∷◌, ◌≡◌, ◌⊎◌, inl, inr, refl, sym, ap, ◌∙◌, subst,
  ◌==◌, eq_iff, Bool-cases, All, Some, every_self,
}
use mathlib.Core.Option.{some-injective}
use ai_workflows.Effects.{Result, ok, raised}
use ai_workflows.Constants.{JiraLabel}
use ai_workflows.Redis.Hash.{RedisHash, Documented}
use ai_workflows.MergeQueue.Job.{Json}
use ai_workflows.MergeQueue.Submit.{submit_merge_job-writes}
use ai_workflows.IssueFetcher.Types.{FoundIssue, Settings, Events, Services}
use ai_workflows.IssueFetcher.Consolidate.{Entry, Bucket, pop, Buckets, sort_issues}
use ai_workflows.IssueFetcher.Consolidate.Sorted.{
  IsEntry, IsPair, Filed, SortedResult, sort_issues-Sorted,
}
use ai_workflows.IssueFetcher.Consolidate.Pairs.{
  submit_pair, submit_found, submit_pairs, submit_sorted, process_consolidation_labels,
}

module _ (r : RedisHash) (documented : Documented r) (json : Json) (services : Services)
    (settings : Settings) (issues : List FoundIssue) (field : String) where
  -- What may happen to a field.
  abbrev Written : r.Hash → r.Hash → Type 0
  Written before now =
      (r.hget now field ≡ r.hget before field)
      ⊎ ((r.hget before field ≡ none)
          × ((value : String) × (r.hget now field ≡ some value)
              × IsPair services json issues field value))

  Written-trans : (a b c : r.Hash) → Written a b → Written b c → Written a c
  Written-trans a b c (inl same) (inl same') = inl (same' ∙ same)
  Written-trans a b c (inl same) (inr (free, pair)) = inr (sym same ∙ free, pair)
  Written-trans a b c (inr (free, (value, stored, pair))) (inl same) =
      inr (free, (value, same ∙ stored, pair))
  Written-trans a b c (inr (free, (value, stored, pair))) (inr (gone, k)) = cc

  popped :
      (k : String) (bucket : Bucket) (e : Entry)
      → pop k bucket ≡ some e
      → All (Filed services settings issues JiraLabel.consolidate_next) bucket
      → (k ≡ e.component <> (":" <> e.branch))
        × Some (IsEntry services JiraLabel.consolidate_next e) issues
  popped k [] e h all = cc
  popped k ((j, d) ∷ bucket) e h ((at, found), all) = elim (Bool-cases (j == k)) [
    | inl same ↦
        let is_d = some-injective _ _ (rw same at h) in
        (
          sym ((eq_iff j k).0 same) ∙ (at ∙ ap (λ x. x.component <> (":" <> x.branch)) is_d),
          subst (λ x. Some (IsEntry services JiraLabel.consolidate_next x) issues) is_d found,
        )
    | inr other ↦ popped k bucket e (rw other at h) all
  ]

  submit_pair-Written :
      (answer : Result (Unit {0})) (base next : Entry) (s : r.Hash × Events) (n : ℕ)
      → (base.component <> (":" <> base.branch) ≡ next.component <> (":" <> next.branch))
        × Some (IsEntry services JiraLabel.consolidate_base base) issues
        × Some (IsEntry services JiraLabel.consolidate_next next) issues
      → Written s.0 (submit_pair r json services settings answer base next s n).1.0
  unfolding submit_pair
  submit_pair-Written (raised e) base next s n pair = inl refl
  submit_pair-Written (ok u) base next (hash, log) n (same, b, x) =
      elim (submit_merge_job-writes r base.component base.branch (some (base.key ∷ next.key ∷ []))
        hash documented json (services.now log) none field) [
          | inl kept ↦ inl kept
          | inr (here, free, stored) ↦
              inr (free, (_, stored, (base, next, services.now log, here, refl, same, b, x)))
        ]

  submit_found-Written :
      (answer : Events → Result (Unit {0})) (k : String) (base : Entry) (bucket : Bucket)
      → (found : Option Entry) (s : r.Hash × Events) (n : ℕ) → pop k bucket ≡ found
      → Filed services settings issues JiraLabel.consolidate_base (k, base)
      → All (Filed services settings issues JiraLabel.consolidate_next) bucket
      → Written s.0 (submit_found r json services settings answer base found s n).1.0
  submit_found-Written answer k base bucket none s n e filed all = inl refl
  submit_found-Written answer k base bucket (some next) s n e (at, b) all =
      let (at', x) = popped k bucket next e all in
      submit_pair-Written (answer s.1) base next s n (sym at ∙ at', b, x)

  submit_pairs-Written :
      (answer : Events → Result (Unit {0})) (bases next : Bucket) (s : r.Hash × Events) (n : ℕ)
      → All (Filed services settings issues JiraLabel.consolidate_base) bases
      → All (Filed services settings issues JiraLabel.consolidate_next) next
      → Written s.0 (submit_pairs r json services settings answer bases next s n).1.0
  unfolding submit_pairs
  submit_pairs-Written answer [] next s n h all = inl refl
  submit_pairs-Written answer ((k, base) ∷ bases) next s n (b, h) all =
      let (n', s') = submit_found r json services settings answer base (pop k next) s n in
      Written-trans s.0 (submit_found r json services settings answer base (pop k next) s n).1.0 _
        (submit_found-Written answer k base next (pop k next) s n refl b all)
        (submit_pairs-Written answer bases next
          (submit_found r json services settings answer base (pop k next) s n).1
          (submit_found r json services settings answer base (pop k next) s n).0 h all)

  submit_sorted-Written :
      (answer : Events → Result (Unit {0})) (hash : r.Hash) (sorted : Result Buckets × Events)
      → SortedResult services settings issues sorted
      → Written hash (submit_sorted r json services settings answer hash sorted).1.0
  submit_sorted-Written answer hash (raised e, log) h = inl refl
  submit_sorted-Written answer hash (ok buckets, log) (h, k) =
      submit_pairs-Written answer buckets.base buckets.next (hash, log) 0 h k

-- The processing of the consolidation labels leaves each entry of the merge queue as it is, except
-- that a pending entry may appear where there was none. It is then the one of a package and a
-- branch, and its value is the text of a job with the keys of two entries of them: one of an issue
-- that has `ymir_consolidate_base`, one of an issue that has `ymir_consolidate_next`, each with its
-- component first and a fix version of its branch, and each label added by a Red Hat employee.
-- One issue with both labels may be both.
pub process_consolidation_labels-IsPair :
    (r : RedisHash)
    → Documented r
    → (json : Json) (services : Services) (settings : Settings) (issues : List FoundIssue)
    → (field : String) (answer : Events → Result (Unit {0})) (hash : r.Hash) (log : Events)
    → (r.hget
          (process_consolidation_labels r json services settings answer issues (hash, log)).1.0
          field
        ≡ r.hget hash field)
      ⊎ ((r.hget hash field ≡ none)
          × ((value : String) × (r.hget
                  (process_consolidation_labels r json services settings answer issues
                    (hash, log)).1.0
                  field
                ≡ some value)
              × IsPair services json issues field value))
unfolding process_consolidation_labels
process_consolidation_labels-IsPair r documented json services settings issues field answer hash
      log =
    submit_sorted-Written r documented json services settings issues field answer hash
      (sort_issues services settings issues (record { base = []; next = [] }) log)
      (sort_issues-Sorted services settings issues issues _ log (every_self issues) (tt, tt))
