-- ===== src/Examples/MergeSteps.antt =====
-- The queue of merge consolidation jobs.
use mathlib.Core.Option.{some-injective}
use ai_workflows.Common.{String, false, some, none, [], ◌∷◌, ◌≡◌, refl, eq_iff}
use ai_workflows.Effects.{raised, exn, value_error}
use ai_workflows.MergeQueue.Job.{Json, consolidation_field_key}
use ai_workflows.MergeQueue.Scripts.{
  Picked, pick_job, scan, try_field, promote, recovery_prefix, pending_prefix,
}
use ai_workflows.MergeQueue.Queue.{
  submit_merge_job, requeue_active_job, refresh_active_heartbeat, complete_job,
}
use ai_workflows.MergeQueue.Submit.{
  waiting_job, SubmitMeaning, submit_merge_job-SubmitMeaning, submit_merge_job-keeps,
}
use ai_workflows.MergeQueue.Pick.{Moved, pick_job-Moved, pick_job-keeps}
use ai_workflows.MergeQueue.Owner.{not_owner-unchanged}
use ai_workflows.Examples.Hash.{fields, fields-Documented}

-- A job is written as the name of its package, and none can be read back.
abbrev json : Json
json = record {
  model_dump_json = λ job. job.package_name;
  model_validate_json = λ s. raised (exn value_error s);
}

abbrev queue : fields.Hash
queue = (0, ("bash:c9s:active", "one") ∷ ("vim:c9s:pending", "two") ∷ [])

abbrev picked : Picked
picked = record { field = "vim:c9s:pending"; value = "two"; active_key = "vim:c9s:active" }

abbrev after_pick : fields.Hash
after_pick =
    (0, ("vim:c9s:heartbeat", "9.5") ∷ ("vim:c9s:active", "two") ∷ ("bash:c9s:active", "one") ∷ [])

submit_merge_job-SubmitMeaning_example :
    SubmitMeaning fields "bash" "c9s"
      (some ("RHEL-1" ∷ []))
      queue
      (json.model_dump_json (waiting_job 5 "bash" "c9s" (some ("RHEL-1" ∷ [])) none))
      (submit_merge_job fields json 5 "bash" "c9s" (some ("RHEL-1" ∷ [])) none queue)
submit_merge_job-SubmitMeaning_example =
    submit_merge_job-SubmitMeaning fields "bash" "c9s" (some ("RHEL-1" ∷ [])) queue
      fields-Documented json 5 none

submit_merge_job-keeps_example :
    fields.hget (submit_merge_job fields json 5 "bash" "c9s" none none queue).1 "bash:c9s:active"
    ≡ some "one"
submit_merge_job-keeps_example =
    submit_merge_job-keeps fields "bash" "c9s" none queue fields-Documented json 5 none
      "bash:c9s:active" "one" refl

pick_job-Moved_example : (prefix : String) × Moved fields queue after_pick picked prefix
unfolding pick_job scan try_field promote recovery_prefix pending_prefix
pick_job-Moved_example = pick_job-Moved fields fields-Documented queue "9.5" picked after_pick refl

pick_job-keeps_example : fields.hget after_pick "bash:c9s:active" ≡ some "one"
unfolding pick_job scan try_field promote recovery_prefix pending_prefix
pick_job-keeps_example =
    pick_job-keeps fields fields-Documented queue "9.5" picked after_pick "bash:c9s:active" "one"
      refl refl (λ e. let same = (eq_iff _ _).1 e in cc) refl

not_owner-unchanged_example :
    (requeue_active_job fields json "bash" "c9s" "two" queue ≡ (false, queue))
    × (refresh_active_heartbeat fields json "bash" "c9s" "two" "9.5" queue ≡ (false, queue))
    × (complete_job fields json "bash" "c9s" "two" queue ≡ (false, queue))
unfolding consolidation_field_key
not_owner-unchanged_example =
    not_owner-unchanged fields json "bash" "c9s" "two" "9.5" queue
      (λ e. let same = (eq_iff _ _).1 (some-injective _ _ e) in cc)
