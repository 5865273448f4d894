-- ===== src/Examples/LockSteps.antt =====
-- The lock of a test path.
use ai_workflows.Common.{
  true, false, none, [], ◌∷◌, ◌≡◌, refl, arith, contains, ◌==◌, if◌then◌else◌,
}
use ai_workflows.Effects.{ok, raised, exn, value_error}
use ai_workflows.ReproducerLock.Lock.{
  Json, active_field, blocked_reproducer_queue_key, promote_blocked_reproducer_tasks,
  release_reproducer_lock,
}
use ai_workflows.ReproducerLock.Promote.{
  promote_blocked_reproducer_tasks-ends, promote_blocked_reproducer_tasks-moves,
}
use ai_workflows.ReproducerLock.Exclusive.{release_reproducer_lock-frees}
use ai_workflows.Examples.Hash.{fields, fields-Documented}
use ai_workflows.Examples.Lists.{Store, store, store-Documented}

-- An entry is written as its package; the task "bad" cannot be read, and no task is a user's.
abbrev json : Json
json = record {
  model_dump_json = λ e. e.package_name;
  model_validate_json = λ s. raised (exn value_error s);
  user_triggered = λ s. if s == "bad" then raised (exn value_error s) else ok false;
}

abbrev locks : fields.Hash
locks = (0, ("bash:CVE-1:active", "holder") ∷ [])

abbrev waiting : Store
waiting k = if k == "reproducer_blocked:bash:CVE-1" then "bad" ∷ "one" ∷ [] else []

promote_blocked_reproducer_tasks-ends_example :
    (promote_blocked_reproducer_tasks store json 3 "bash" "CVE-1" waiting).1
      (blocked_reproducer_queue_key "bash" "CVE-1")
    ≡ []
unfolding blocked_reproducer_queue_key
promote_blocked_reproducer_tasks-ends_example =
    promote_blocked_reproducer_tasks-ends store store-Documented json 3 "bash" "CVE-1" waiting
      (omega arith)

promote_blocked_reproducer_tasks-moves_example :
    contains
      ((promote_blocked_reproducer_tasks store json 3 "bash" "CVE-1" waiting).1 "reproducer_queue")
      "one"
    ≡ true
unfolding blocked_reproducer_queue_key
promote_blocked_reproducer_tasks-moves_example =
    promote_blocked_reproducer_tasks-moves store store-Documented json 3 "bash" "CVE-1" "one" false
      waiting (omega arith) refl refl

release_reproducer_lock-frees_example :
    let done =
      release_reproducer_lock fields store json 3 "bash" "CVE-1" "holder" (locks, waiting) in
    (done.0 ≡ true)
    × (fields.hget done.1.0 (active_field "bash" "CVE-1") ≡ none)
    × (done.1.1 (blocked_reproducer_queue_key "bash" "CVE-1") ≡ [])
unfolding active_field blocked_reproducer_queue_key
release_reproducer_lock-frees_example =
    release_reproducer_lock-frees fields store json fields-Documented store-Documented 3 "bash"
      "CVE-1" "holder" locks waiting refl (omega arith)
