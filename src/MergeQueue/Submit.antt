-- ===== src/MergeQueue/Submit.antt =====
-- What a submission does to the queue.
use ai_workflows.Common.{
  none_of_absent, ℕ, String, Bool, true, false, Option, none, some, is_some, List, ◌≡◌, ◌⊎◌, inl,
  inr, refl, ap, ◌∙◌, ◌&&◌, ◌||◌, Bool-cases, String-cases,
}
use ai_workflows.Redis.Hash.{RedisHash, Documented}
use ai_workflows.MergeQueue.Job.{
  MergeConsolidationJob, SubmitResult, consolidation_field_key, Json, unique_sorted,
}
use ai_workflows.MergeQueue.Scripts.{
  Mode, Submission, is_strict, recovery_prefix_exists, submit_job,
}
use ai_workflows.MergeQueue.Recovery.{
  HasRecovery, NoRecovery, recovery_prefix_exists-HasRecovery, recovery_prefix_exists-NoRecovery,
}
use ai_workflows.MergeQueue.Queue.{mode_of, submit_result, submit_merge_job}

no_or : (a b : Bool) → a || b ≡ false → (a ≡ false) × (b ≡ false)
no_or true b h = cc
no_or false b h = (refl, h)

strict_free : (m : Mode) (b : Bool) → is_strict m && b ≡ false → m ≡ Mode.strict → b ≡ false
strict_free Mode.strict b h e = h
strict_free Mode.auto b h e = let t = ap is_strict e in cc

-- The job of a submission, which is not active yet.
abbrev pub waiting_job :
    ℕ → String → String → Option (List String) → Option String → MergeConsolidationJob
waiting_job now pkg branch source_issues release_strategy = record {
  package_name = pkg;
  target_branch = branch;
  active = false;
  submitted_at = now;
  source_issues = unique_sorted source_issues;
  activated_at = none;
  release_strategy = release_strategy;
}

or_true : (a b : Bool) → a || b ≡ true → (a ≡ true) ⊎ (b ≡ true)
or_true true b h = inl refl
or_true false b h = inr h

module _ (r : RedisHash) (pending active value : String) (mode : Mode) (recovery : String)
    (hash : r.Hash) where
  -- What the script's answer means.
  abbrev Meaning : Submission × r.Hash → Type 0
  Meaning (Submission.filed, h) =
      (r.hget hash pending ≡ none)
      × (mode ≡ Mode.strict
          → (r.hget hash active ≡ none) × (recovery_prefix_exists r hash recovery ≡ false))
      × (h ≡ r.hset pending value hash)
  Meaning (Submission.pending_exists, h) = (is_some (r.hget hash pending) ≡ true) × (h ≡ hash)
  Meaning (Submission.active_exists, h) =
      (mode ≡ Mode.strict)
      × (r.hget hash pending ≡ none)
      × ((is_some (r.hget hash active) ≡ true) ⊎ (recovery_prefix_exists r hash recovery ≡ true))
      × (h ≡ hash)

  taken_of : (m : Mode) (a b : Bool) → is_strict m && (a || b) ≡ true → (a ≡ true) ⊎ (b ≡ true)
  taken_of Mode.strict a b h = or_true a b h
  taken_of Mode.auto a b h = cc

  strict_of : (m : Mode) (b : Bool) → is_strict m && b ≡ true → m ≡ Mode.strict
  strict_of Mode.strict b h = refl
  strict_of Mode.auto b h = cc

  submit_job-Meaning : Meaning (submit_job r pending active value mode recovery hash)
  unfolding submit_job
  submit_job-Meaning = elim (Bool-cases (is_some (r.hget hash pending))) [
    | inl there ↦ rw there (there, refl)
    | inr free ↦
        elim (Bool-cases (
          is_strict mode
          && (is_some (r.hget hash active) || recovery_prefix_exists r hash recovery))) [
            | inl blocked ↦
                rw (free, blocked)
                  (strict_of mode _ blocked, none_of_absent _ free, taken_of mode _ _ blocked, refl)
            | inr open_way ↦
                rw (free, open_way)
                  (
                    none_of_absent _ free,
                    (λ strict.
                        let (a, b) = no_or _ _ (strict_free mode _ open_way strict) in
                        (none_of_absent _ a, b)),
                    refl,
                  )
          ]
  ]

module _ (r : RedisHash) (pkg branch : String) (source_issues : Option (List String))
    (hash : r.Hash) where
  abbrev pending_key : String
  pending_key = consolidation_field_key pkg branch "pending"

  -- What the caller may conclude from the result, and what happened to the hash: `value` is the
  -- text of the job.
  abbrev pub SubmitMeaning : String → SubmitResult × r.Hash → Type 0
  SubmitMeaning value (SubmitResult.submitted, h) =
      (r.hget hash (consolidation_field_key pkg branch "pending") ≡ none)
      × ((source_issues ≡ none)
          ⊎ ((r.hget hash (consolidation_field_key pkg branch "active") ≡ none)
              × NoRecovery r hash (consolidation_field_key pkg branch "recovery")))
      × (r.hget h (consolidation_field_key pkg branch "pending") ≡ some value)
  SubmitMeaning value (SubmitResult.already_queued, h) =
      (source_issues ≡ none)
      × (is_some (r.hget hash (consolidation_field_key pkg branch "pending")) ≡ true)
      × (h ≡ hash)
  SubmitMeaning value (SubmitResult.conflict, h) =
      (is_some source_issues ≡ true)
      × ((is_some (r.hget hash (consolidation_field_key pkg branch "pending")) ≡ true)
          ⊎ ((is_some (r.hget hash (consolidation_field_key pkg branch "active")) ≡ true)
              ⊎ HasRecovery r hash (consolidation_field_key pkg branch "recovery")))
      × (h ≡ hash)

  some_of_strict : (s : Option (List String)) → mode_of s ≡ Mode.strict → is_some s ≡ true
  some_of_strict none e = let t = ap is_strict e in cc
  some_of_strict (some xs) e = refl

  auto_or :
      {A : Type 0} (s : Option (List String))
      → source_issues ≡ s
      → (mode_of s ≡ Mode.strict → A)
      → (source_issues ≡ none) ⊎ A
  auto_or none e strict_only = inl e
  auto_or (some xs) e strict_only = inr (strict_only refl)

  -- A new pending entry takes no other's place.
  hset_free :
      Documented r
      → (p value : String) → r.hget hash p ≡ none
      → (f v : String) → r.hget hash f ≡ some v
      → r.hget (r.hset p value hash) f ≡ some v
  hset_free documented p value free f v e = elim (String-cases f p) [
    | inl same ↦ let e' = rw same at e in cc
    | inr other ↦ documented.hget-hset_other p f value hash other ∙ e
  ]

  pending_exists-SubmitMeaning :
      (value : String) (s : Option (List String))
      → source_issues ≡ s
      → is_some (r.hget hash (consolidation_field_key pkg branch "pending")) ≡ true
      → SubmitMeaning value (submit_result (mode_of s) Submission.pending_exists, hash)
  unfolding submit_result
  pending_exists-SubmitMeaning value none e there = (e, there, refl)
  pending_exists-SubmitMeaning value (some xs) e there = (ap is_some e, inl there, refl)

  answer-SubmitMeaning :
      Documented r
      → (value : String) (answer : Submission × r.Hash)
      → Meaning r
          (consolidation_field_key pkg branch "pending")
          (consolidation_field_key pkg branch "active")
          value
          (mode_of source_issues)
          (consolidation_field_key pkg branch "recovery")
          hash
          answer
      → SubmitMeaning value (submit_result (mode_of source_issues) answer.0, answer.1)
  unfolding submit_result
  answer-SubmitMeaning documented value (Submission.filed, h) (free, strict_only, e) = (
    free,
    auto_or source_issues refl (λ strict.
        let (idle, clear) = strict_only strict in
        (idle, recovery_prefix_exists-NoRecovery r hash _ clear)),
    rw e (documented.hget-hset _ value hash),
  )
  answer-SubmitMeaning documented value (Submission.pending_exists, h) (there, e) =
      rw e (pending_exists-SubmitMeaning value source_issues refl there)
  answer-SubmitMeaning documented value (Submission.active_exists, h) (strict, free, taken, e) = (
    some_of_strict source_issues strict,
    inr (elim taken [
      | inl active ↦ inl active
      | inr recovery ↦ inr (recovery_prefix_exists-HasRecovery r hash _ documented recovery)
    ]),
    e,
  )

  answer-keeps :
      Documented r
      → (value : String) (answer : Submission × r.Hash) (f v : String)
      → Meaning r
          (consolidation_field_key pkg branch "pending")
          (consolidation_field_key pkg branch "active")
          value
          (mode_of source_issues)
          (consolidation_field_key pkg branch "recovery")
          hash
          answer
      → r.hget hash f ≡ some v
      → r.hget answer.1 f ≡ some v
  answer-keeps documented value (Submission.filed, h) f v (free, strict_only, e) q =
      rw e (hset_free documented _ value free f v q)
  answer-keeps documented value (Submission.pending_exists, h) f v (there, e) q = rw e q
  answer-keeps documented value (Submission.active_exists, h) f v (strict, free, taken, e) q =
      rw e q

  module _ (documented : Documented r) (json : Json) (now : ℕ)
      (release_strategy : Option String) where
    -- A submission files a job only when none is pending for the branch, and one for chosen issues
    -- only when none is active or in recovery either; the pending entry is then the text of the job
    -- with the chosen issues. Otherwise the queue is unchanged: an automatic submission is told
    -- that a job is queued only when one was pending, and one with chosen issues is told of a
    -- conflict only when a job was pending, active or in recovery.
    pub submit_merge_job-SubmitMeaning :
        SubmitMeaning
          (json.model_dump_json (waiting_job now pkg branch source_issues release_strategy))
          (submit_merge_job r json now pkg branch source_issues release_strategy hash)
    unfolding submit_merge_job
    submit_merge_job-SubmitMeaning =
        answer-SubmitMeaning documented _ _ (submit_job-Meaning r _ _ _ _ _ hash)

    -- A submission overwrites no entry of the queue, whatever its outcome.
    pub submit_merge_job-keeps :
        (f v : String)
        → r.hget hash f ≡ some v
        → r.hget (submit_merge_job r json now pkg branch source_issues release_strategy hash).1 f
          ≡ some v
    unfolding submit_merge_job
    submit_merge_job-keeps f v q =
        answer-keeps documented _ _ f v (submit_job-Meaning r _ _ _ _ _ hash) q

    writes :
        (value : String) (answer : Submission × r.Hash)
        → Meaning r
            (consolidation_field_key pkg branch "pending")
            (consolidation_field_key pkg branch "active")
            value
            (mode_of source_issues)
            (consolidation_field_key pkg branch "recovery")
            hash
            answer
        → (answer.1 ≡ hash)
          ⊎ ((r.hget hash (consolidation_field_key pkg branch "pending") ≡ none)
              × (answer.1 ≡ r.hset (consolidation_field_key pkg branch "pending") value hash))
    writes value (Submission.filed, h) (free, strict_only, e) = inr (free, e)
    writes value (Submission.pending_exists, h) (there, e) = inl e
    writes value (Submission.active_exists, h) (strict, free, taken, e) = inl e

    -- A submission writes at most the pending entry of its branch, where there was none: that is
    -- the text of the job then.
    pub submit_merge_job-writes :
        (f : String)
        → let h = (submit_merge_job r json now pkg branch source_issues release_strategy hash).1 in
          (r.hget h f ≡ r.hget hash f)
          ⊎ ((f ≡ consolidation_field_key pkg branch "pending")
              × (r.hget hash f ≡ none)
              × (r.hget h f
                  ≡ some (
                      json.model_dump_json
                        (waiting_job now pkg branch source_issues release_strategy))))
    unfolding submit_merge_job
    submit_merge_job-writes f = elim (writes _ _ (submit_job-Meaning r _ _ _ _ _ hash)) [
      | inl same ↦ inl (ap (λ h. r.hget h f) same)
      | inr (free, e) ↦ elim (String-cases f (consolidation_field_key pkg branch "pending")) [
        | inl here ↦ inr (
          here,
          ap (r.hget hash) here ∙ free,
          ap (r.hget _) here
              ∙ ap (λ h. r.hget h (consolidation_field_key pkg branch "pending")) e
              ∙ documented.hget-hset _ _ hash,
        )
        | inr other ↦ inl (ap (λ h. r.hget h f) e ∙ documented.hget-hset_other _ f _ hash other)
      ]
    ]
