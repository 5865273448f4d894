-- ===== src/ReproducerLock/Exclusive.antt =====
-- One holder of a lock at a time.
use ai_workflows.MergeQueue.Owner.{not_held}
use ai_workflows.Common.{
  none_of_absent, ℕ, String, true, false, Option, none, some, is_some, ◌≡◌, ◌≢◌, inl, inr, refl,
  Bool-cases, eq_refl, length, ◌<◌, [],
}
use ai_workflows.Redis.Hash.{RedisHash, Documented}
use ai_workflows.Redis.Lists.{RedisLists, Documented as ListsDocumented}
use ai_workflows.ReproducerLock.Lock.{
  Json, active_field, acquire_script, delete_script, try_acquire_reproducer_lock, after_delete,
  release_reproducer_lock, blocked_reproducer_queue_key,
}
use ai_workflows.ReproducerLock.Promote.{promote_blocked_reproducer_tasks-ends}

module _ (r : RedisHash) (lists : RedisLists) (json : Json) where
  -- What an attempt to acquire did: the caller's token is in a field that was free, or nothing.
  abbrev pub AcquireMeaning : String → r.Hash → Option String × r.Hash → Type 0
  AcquireMeaning field hash (some token, h) =
      (r.hget hash field ≡ none) × (r.hget h field ≡ some token)
  AcquireMeaning field hash (none, h) = (is_some (r.hget hash field) ≡ true) × (h ≡ hash)

  -- The lock is acquired only when it has no holder, and then the token that is handed out is the
  -- one that holds it; an attempt on a lock with a holder changes nothing.
  pub try_acquire_reproducer_lock-AcquireMeaning :
      Documented r
      → (now : ℕ) (pkg lock_id : String) (jira_issue : Option String) (hash : r.Hash)
      → AcquireMeaning
          (active_field pkg lock_id)
          hash
          (try_acquire_reproducer_lock r lists json now pkg lock_id jira_issue hash)
  unfolding try_acquire_reproducer_lock acquire_script
  try_acquire_reproducer_lock-AcquireMeaning documented now pkg lock_id jira_issue hash =
      elim (Bool-cases (is_some (r.hget hash (active_field pkg lock_id)))) [
        | inl held ↦ rw held (held, refl)
        | inr free ↦ rw free (none_of_absent _ free, documented.hget-hset _ _ hash)
      ]

  -- A late release, with a token that no longer holds the lock, changes neither the locks nor the
  -- waiting tasks, and says so.
  pub release_reproducer_lock-late :
      (fuel : ℕ) (pkg lock_id token : String) (hash : r.Hash) (l : lists.Lists)
      → r.hget hash (active_field pkg lock_id) ≢ some token
      → release_reproducer_lock r lists json fuel pkg lock_id token (hash, l) ≡ (false, (hash, l))
  unfolding release_reproducer_lock delete_script after_delete
  release_reproducer_lock-late fuel pkg lock_id token hash l h = rw (not_held _ token h) refl

  -- A release by the holder frees the lock and empties its waiting list, when the promotion is
  -- given one turn more than the list has entries.
  pub release_reproducer_lock-frees :
      Documented r
      → ListsDocumented lists
      → (fuel : ℕ) (pkg lock_id token : String) (hash : r.Hash) (l : lists.Lists)
      → r.hget hash (active_field pkg lock_id) ≡ some token
      → length (lists.lrange l (blocked_reproducer_queue_key pkg lock_id)) < fuel
      → let done = release_reproducer_lock r lists json fuel pkg lock_id token (hash, l) in
        (done.0 ≡ true)
        × (r.hget done.1.0 (active_field pkg lock_id) ≡ none)
        × (lists.lrange done.1.1 (blocked_reproducer_queue_key pkg lock_id) ≡ [])
  unfolding release_reproducer_lock delete_script after_delete
  release_reproducer_lock-frees documented listed fuel pkg lock_id token hash l holder enough =
      rw (holder, eq_refl token)
        (
          refl,
          documented.hget-hdel _ hash,
          promote_blocked_reproducer_tasks-ends lists listed json fuel pkg lock_id l enough,
        )
