-- ===== src/ReproducerLock/Lock.antt =====
-- The functions of ymir/common/reproducer_lock.py on the lock and on the blocked tasks. The state
-- is the hash of the locks beside the lists. Moments and spans are microseconds.
use ai_workflows.Common.{
  ℕ, suc, ◌-◌, String, ◌<>◌, Bool, true, false, Option, none, some, is_some, List, [], ◌∷◌, leb,
  if◌then◌else◌,
}
use ai_workflows.Effects.{Result, ok, raised}
use ai_workflows.Redis.Hash.{RedisHash}
use ai_workflows.Redis.Lists.{RedisLists}
use ai_workflows.MergeQueue.Scripts.{holds, ends_with}

pub record ReproducerLockEntry : Type 0 where
  pub package_name : String
  pub lock_id : String
  pub jira_issue : Option String
  pub activated_at : ℕ

-- pydantic's reading and writing of an entry, and of a task what `user_triggered` says
pub record Json : Type 0 where
  pub model_dump_json : ReproducerLockEntry → String
  pub model_validate_json : String → Result ReproducerLockEntry
  pub user_triggered : String → Result Bool

unfoldable pub active_field : String → String → String
active_field pkg lock_id = pkg <> (":" <> (lock_id <> ":active"))

unfoldable pub blocked_reproducer_queue_key : String → String → String
blocked_reproducer_queue_key pkg lock_id =
    "reproducer_blocked" <> (":" <> (pkg <> (":" <> lock_id)))

abbrev pub target_queue : Bool → String
target_queue true = "reproducer_queue_todo"
target_queue false = "reproducer_queue"

module _ (lists : RedisLists) (json : Json) where
  open lists use {Lists, lpush, rpush, lpop}

  unfoldable pub enqueue_blocked_reproducer_task : (pkg lock_id payload : String) → Lists → Lists
  enqueue_blocked_reproducer_task pkg lock_id payload l =
      rpush (blocked_reproducer_queue_key pkg lock_id) payload l

  -- A payload that is no task is skipped.
  unfoldable pub promote_payload : Result Bool → String → ℕ × Lists → ℕ × Lists
  promote_payload (ok triggered) payload (promoted, l) =
      (suc promoted, lpush (target_queue triggered) payload l)
  promote_payload (raised e) payload (promoted, l) = (promoted, l)

  unfoldable pub promote_popped : (ℕ × Lists → ℕ × Lists) → ℕ → Option String × Lists → ℕ × Lists
  promote_popped rest promoted (none, l) = (promoted, l)
  promote_popped rest promoted (some payload, l) =
      rest (promote_payload (json.user_triggered payload) payload (promoted, l))

  -- The loop, one unit of fuel for each turn.
  unfoldable pub promote_loop : ℕ → String → ℕ × Lists → ℕ × Lists
  promote_loop ℕ.zero key (promoted, l) = (promoted, l)
  promote_loop (ℕ.suc fuel) key (promoted, l) =
      promote_popped (promote_loop fuel key) promoted (lpop key l)

  unfoldable pub promote_blocked_reproducer_tasks : ℕ → (pkg lock_id : String) → Lists → ℕ × Lists
  promote_blocked_reproducer_tasks fuel pkg lock_id l =
      promote_loop fuel (blocked_reproducer_queue_key pkg lock_id) (0, l)

module _ (r : RedisHash) (lists : RedisLists) (json : Json) where
  open r use {Hash, hget, hset, hdel, hgetall}
  open lists use {Lists}

  -- _ACQUIRE_LUA
  unfoldable pub acquire_script : (field value : String) → Hash → Bool × Hash
  acquire_script field value hash =
      if is_some (hget hash field) then (false, hash) else (true, hset field value hash)

  -- _CONDITIONAL_HDEL_LUA
  unfoldable pub delete_script : (field value : String) → Hash → Bool × Hash
  delete_script field value hash =
      if holds (hget hash field) value then (true, hdel field hash) else (false, hash)

  unfoldable pub try_acquire_reproducer_lock :
      (now : ℕ) (pkg lock_id : String) → Option String → Hash → Option String × Hash
  try_acquire_reproducer_lock now pkg lock_id jira_issue hash =
      let token = json.model_dump_json (record {
        package_name = pkg;
        lock_id = lock_id;
        jira_issue = jira_issue;
        activated_at = now;
      }) in
      let (acquired, hash') = acquire_script (active_field pkg lock_id) token hash in
      (if acquired then some token else none, hash')

  unfoldable pub after_delete :
      (fuel : ℕ) (pkg lock_id : String) → Bool × Hash → Lists → Bool × (Hash × Lists)
  after_delete fuel pkg lock_id (true, hash) l =
      (true, (hash, (promote_blocked_reproducer_tasks lists json fuel pkg lock_id l).1))
  after_delete fuel pkg lock_id (false, hash) l = (false, (hash, l))

  unfoldable pub release_reproducer_lock :
      (fuel : ℕ) (pkg lock_id token : String) → Hash × Lists → Bool × (Hash × Lists)
  release_reproducer_lock fuel pkg lock_id token (hash, l) =
      after_delete fuel pkg lock_id (delete_script (active_field pkg lock_id) token hash) l

  abbrev pub one_more_removed : ℕ → Bool × (Hash × Lists) → ℕ × (Hash × Lists)
  one_more_removed removed (true, s) = (suc removed, s)
  one_more_removed removed (false, s) = (removed, s)

  -- One entry of the snapshot.
  unfoldable pub sweep_lock :
      (fuel now threshold : ℕ) (field value : String)
      → Result ReproducerLockEntry
      → ℕ × (Hash × Lists)
      → ℕ × (Hash × Lists)
  sweep_lock fuel now threshold field value (raised e) s = s
  sweep_lock fuel now threshold field value (ok entry) (removed, (hash, l)) =
      if leb (now - entry.activated_at) threshold
      then (removed, (hash, l))
      else one_more_removed removed
          (after_delete fuel entry.package_name entry.lock_id (delete_script field value hash) l)

  unfoldable pub sweep_locks :
      (fuel now threshold : ℕ) → List (String × String) → ℕ × (Hash × Lists) → ℕ × (Hash × Lists)
  sweep_locks fuel now threshold [] s = s
  sweep_locks fuel now threshold ((field, value) ∷ fields) s =
      let rest = sweep_locks fuel now threshold fields in
      rest (
        if ends_with field ":active"
        then sweep_lock fuel now threshold field value (json.model_validate_json value) s
        else s)

  unfoldable pub sweep_stale_reproducer_locks :
      (fuel now threshold : ℕ) → Hash × Lists → ℕ × (Hash × Lists)
  sweep_stale_reproducer_locks fuel now threshold (hash, l) =
      sweep_locks fuel now threshold (hgetall hash) (0, (hash, l))
