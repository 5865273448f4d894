-- ===== src/MergeQueue/Queue.antt =====
-- The functions of ymir/common/merge_queue.py. Moments and spans are microseconds.
use ai_workflows.Common.{
  ℕ, suc, ◌-◌, String, ◌<>◌, Bool, true, false, Option, none, some, List, [], ◌∷◌, not, leb, ◌==◌,
  if◌then◌else◌,
}
use ai_workflows.Effects.{Result, ok, raised}
use ai_workflows.Redis.Hash.{RedisHash}
use ai_workflows.MergeQueue.Job.{
  MergeConsolidationJob, SubmitResult, consolidation_field_key, heartbeat_field_key, Json,
  unique_sorted,
}
use ai_workflows.MergeQueue.Scripts.{
  Mode, Submission, Picked, ends_with, before, submit_job, pick_job, update_active, requeue_active,
  heartbeat, complete, move_stale,
}

-- `"strict" if source_issues is not None else "auto"`
abbrev pub mode_of : Option (List String) → Mode
mode_of none = Mode.auto
mode_of (some xs) = Mode.strict

unfoldable pub submit_result : Mode → Submission → SubmitResult
submit_result mode Submission.filed = SubmitResult.submitted
submit_result mode Submission.active_exists = SubmitResult.conflict
submit_result Mode.strict Submission.pending_exists = SubmitResult.conflict
submit_result Mode.auto Submission.pending_exists = SubmitResult.already_queued

abbrev pub field_value : String → List (String × String) → Option String
field_value field [] = none
field_value field ((f, v) ∷ fields) = if f == field then some v else field_value field fields

module _ (r : RedisHash) (json : Json) where
  open r use {Hash, hgetall}

  unfoldable pub submit_merge_job :
      (now : ℕ) (pkg target_branch : String)
      → Option (List String)
      → Option String
      → Hash
      → SubmitResult × Hash
  submit_merge_job now pkg target_branch source_issues release_strategy hash =
      let mode = mode_of source_issues in
      let (answer, hash') =
        submit_job r (consolidation_field_key pkg target_branch "pending")
          (consolidation_field_key pkg target_branch "active")
          (json.model_dump_json (record {
            package_name = pkg;
            target_branch = target_branch;
            active = false;
            submitted_at = now;
            source_issues = unique_sorted source_issues;
            activated_at = none;
            release_strategy = release_strategy;
          }))
          mode (consolidation_field_key pkg target_branch "recovery") hash in
      (submit_result mode answer, hash')

  abbrev pub activated : ℕ → MergeConsolidationJob → MergeConsolidationJob
  activated now job = record {
    package_name = job.package_name;
    target_branch = job.target_branch;
    active = true;
    submitted_at = job.submitted_at;
    source_issues = job.source_issues;
    activated_at = some now;
    release_strategy = job.release_strategy;
  }

  -- The promoted job is given out if its field is still as it was written.
  unfoldable pub give_out :
      ℕ
      → Picked
      → Result MergeConsolidationJob
      → Hash
      → Result (Option MergeConsolidationJob) × Hash
  give_out now picked (raised e) hash = (raised e, hash)
  give_out now picked (ok job) hash =
      let job' = activated now job in
      let (updated, hash') =
        update_active r picked.active_key picked.value (json.model_dump_json job') hash in
      (ok (if updated then some job' else none), hash')

  unfoldable pub after_pick :
      ℕ
      → (Hash → Hash)
      → Hash
      → Option (Picked × Hash)
      → Result (Option MergeConsolidationJob) × Hash
  after_pick now others hash none = (ok none, hash)
  after_pick now others hash (some (picked, hash')) =
      give_out now picked (json.model_validate_json picked.value) (others hash')

  -- `others` is what other clients do to the hash between the two scripts.
  unfoldable pub pick_next_job :
      (now : ℕ) (time : String)
      → (others : Hash → Hash) → Hash
      → Result (Option MergeConsolidationJob) × Hash
  pick_next_job now time others hash = after_pick now others hash (pick_job r time hash)

  unfoldable pub requeue_active_job : (pkg target_branch expected : String) → Hash → Bool × Hash
  requeue_active_job pkg target_branch expected hash =
      requeue_active r (consolidation_field_key pkg target_branch "active")
        (consolidation_field_key pkg target_branch "recovery") expected hash

  unfoldable pub refresh_active_heartbeat :
      (pkg target_branch expected time : String) → Hash → Bool × Hash
  refresh_active_heartbeat pkg target_branch expected time hash =
      heartbeat r (consolidation_field_key pkg target_branch "active") expected
        (heartbeat_field_key pkg target_branch) time hash

  unfoldable pub complete_job : (pkg target_branch expected : String) → Hash → Bool × Hash
  complete_job pkg target_branch expected hash =
      complete r (consolidation_field_key pkg target_branch "active") expected
        (heartbeat_field_key pkg target_branch) hash

  -- The age of an entry: by its heartbeat, or else by its activation.
  module _ (float : String → Result ℕ) where
    abbrev pub heartbeat_age : ℕ → Result ℕ → Option ℕ
    heartbeat_age now (ok timestamp) = some (now - timestamp)
    heartbeat_age now (raised e) = none

    abbrev pub activation_age : ℕ → Option ℕ → Option ℕ
    activation_age now none = none
    activation_age now (some activated_at) = some (now - activated_at)

    unfoldable pub entry_age : ℕ → Option String → MergeConsolidationJob → Option ℕ
    entry_age now (some text) job = heartbeat_age now (float text)
    entry_age now none job = activation_age now job.activated_at

    abbrev pub value_or_empty : Option String → String
    value_or_empty none = ""
    value_or_empty (some v) = v

    abbrev pub is_stale : ℕ → Option ℕ → Bool
    is_stale threshold none = false
    is_stale threshold (some age) = not (leb age threshold)

    abbrev pub one_more : Bool → ℕ → ℕ
    one_more true n = suc n
    one_more false n = n

    -- One entry of the snapshot: `others` is what other clients do to the hash before its script.
    unfoldable pub sweep_entry :
        (now threshold : ℕ) (all_fields : List (String × String)) (field value : String)
        → Result MergeConsolidationJob
        → (others : Hash → Hash) → Hash
        → Bool × Hash
    sweep_entry now threshold all_fields field value (raised e) others hash = (false, hash)
    sweep_entry now threshold all_fields field value (ok job) others hash =
        let prefix = before field ":active" in
        let renewed = field_value (prefix <> ":heartbeat") all_fields in
        if is_stale threshold (entry_age now renewed job)
        then move_stale r field value (prefix <> ":recovery") (prefix <> ":heartbeat")
            (value_or_empty renewed) (others hash)
        else (false, hash)

    unfoldable pub sweep_entries :
        (now threshold : ℕ) (all_fields : List (String × String)) (others : String → Hash → Hash)
        → List (String × String)
        → ℕ
        → Hash
        → ℕ × Hash
    sweep_entries now threshold all_fields others [] recovered hash = (recovered, hash)
    sweep_entries now threshold all_fields others ((field, value) ∷ fields) recovered hash =
        let rest = sweep_entries now threshold all_fields others fields in
        let (moved, hash') =
          (if ends_with field ":active"
            then sweep_entry now threshold all_fields field value (json.model_validate_json value)
                (others field) hash
            else (false, hash)) in
        rest (one_more moved recovered) hash'

    unfoldable pub sweep_stale_active_jobs :
        (now threshold : ℕ) (others : String → Hash → Hash) → Hash → ℕ × Hash
    sweep_stale_active_jobs now threshold others hash =
        sweep_entries now threshold (hgetall hash) others (hgetall hash) 0 hash
