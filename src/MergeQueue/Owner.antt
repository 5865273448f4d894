-- ===== src/MergeQueue/Owner.antt =====
-- What a worker may do to the active job of a branch that is no longer its own.
use ai_workflows.Common.{differ, String, false, Option, none, some, ◌≡◌, ◌≢◌, refl, ap}
use ai_workflows.Redis.Hash.{RedisHash}
use ai_workflows.MergeQueue.Job.{consolidation_field_key, Json}
use ai_workflows.MergeQueue.Scripts.{holds, requeue_active, heartbeat, complete}
use ai_workflows.MergeQueue.Queue.{requeue_active_job, refresh_active_heartbeat, complete_job}

pub not_held :
    (current : Option String) (expected : String)
    → current ≢ some expected
    → holds current expected ≡ false
not_held none expected h = refl
not_held (some c) expected h = differ c expected (λ e. h (ap some e))

-- A worker whose payload is not the active one of the branch changes nothing: it can neither
-- requeue, nor renew, nor complete the job that another worker owns, and is told so.
pub not_owner-unchanged :
    (r : RedisHash) (json : Json) (pkg branch expected time : String) (hash : r.Hash)
    → r.hget hash (consolidation_field_key pkg branch "active") ≢ some expected
    → (requeue_active_job r json pkg branch expected hash ≡ (false, hash))
      × (refresh_active_heartbeat r json pkg branch expected time hash ≡ (false, hash))
      × (complete_job r json pkg branch expected hash ≡ (false, hash))
unfolding requeue_active_job refresh_active_heartbeat complete_job requeue_active heartbeat complete
not_owner-unchanged r json pkg branch expected time hash h =
    rw (not_held _ expected h) (refl, refl, refl)
