-- ===== src/MergeQueue/Pick.antt =====
-- Picking a job promotes a queued one, and loses none.
use text.Mathlib.TextLemmas.{append_cancel_left}
use ai_workflows.Common.{
  none_of_absent, String, ◌<>◌, false, Option, none, some, is_some, List, [], ◌∷◌, All, ◌≡◌, ◌≢◌,
  ◌⊎◌, inl, inr, refl, ◌∙◌, Bool-cases, String-cases, eq_iff, subst,
}
use ai_workflows.Redis.Hash.{RedisHash, Documented}
use ai_workflows.MergeQueue.Fields.{
  FieldOf, FieldOf-no_heartbeat, recovery_prefix-FieldOf, pending_prefix-FieldOf, ends_with-append,
}
use ai_workflows.MergeQueue.Scripts.{
  Picked, promote, try_field, scan, pick_job, ends_with, recovery_prefix, pending_prefix,
}

heartbeat-is-not-active : (p : String) → p <> ":active" ≢ p <> ":heartbeat"
heartbeat-is-not-active p e =
    let same = (eq_iff ":active" ":heartbeat").1 (append_cancel_left p _ _ e) in cc

no_ending : (g p s : String) → ends_with g s ≡ false → g ≢ p <> s
no_ending g p s h e =
    let ends = ends_with-append p s in let h' = subst (λ x. ends_with x s ≡ false) e h in cc

-- The job in `field`, a field of the prefix, was moved to the active field of the prefix, which had
-- none, and is no longer in `field`.
pub record Moved (r : RedisHash) (hash hash' : r.Hash) (picked : Picked) (prefix : String)
    : Type 0 where
  pub of_prefix : FieldOf prefix picked.field
  pub active_is : picked.active_key ≡ prefix <> ":active"
  pub was_free : r.hget hash picked.active_key ≡ none
  pub queued : r.hget hash picked.field ≡ some picked.value
  pub now_active : r.hget hash' picked.active_key ≡ some picked.value
  pub gone : r.hget hash' picked.field ≡ none

-- Every entry but the picked field and the heartbeat is as it was.
abbrev Kept : (r : RedisHash) (hash hash' : r.Hash) → Picked → String → Type 0
Kept r hash hash' picked prefix =
    (g v : String)
    → r.hget hash g ≡ some v
    → g ≢ prefix <> ":heartbeat"
    → (g ≡ picked.field) ⊎ (r.hget hash' g ≡ some v)

module _ (r : RedisHash) (documented : Documented r) (hash : r.Hash) (time : String) where
  promote-kept :
      (prefix field value g v : String)
      → r.hget hash (prefix <> ":active") ≡ none
      → r.hget hash g ≡ some v
      → g ≢ prefix <> ":heartbeat"
      → (g ≡ field) ⊎ (r.hget (promote r time prefix field value hash) g ≡ some v)
  unfolding promote
  promote-kept prefix field value g v free e not_beat = elim (String-cases g field) [
    | inl same ↦ inl same
    | inr other ↦ inr (
        documented.hget-hset_other _ g _ _ not_beat
        ∙ documented.hget-hset_other _ g _ _ (λ same. let e' = rw same at e in cc)
        ∙ documented.hget-hdel_other field g hash other
        ∙ e)
  ]

  promote-active :
      (prefix field value : String)
      → r.hget (promote r time prefix field value hash) (prefix <> ":active") ≡ some value
  unfolding promote
  promote-active prefix field value =
      documented.hget-hset_other _ _ _ _ (heartbeat-is-not-active prefix)
      ∙ documented.hget-hset _ value _

  -- The job is no longer where it was picked.
  promote-gone :
      (prefix field value : String)
      → r.hget hash (prefix <> ":active") ≡ none
      → r.hget hash field ≡ some value
      → FieldOf prefix field
      → r.hget (promote r time prefix field value hash) field ≡ none
  unfolding promote
  promote-gone prefix field value free e own =
      documented.hget-hset_other _ field _ _ (FieldOf-no_heartbeat prefix field own)
      ∙ documented.hget-hset_other _ field _ _ (λ same. let e' = rw same at e in cc)
      ∙ documented.hget-hdel field hash

  -- Everything that a script may answer.
  abbrev Answer : Option (Picked × r.Hash) → Type 0
  Answer none = Unit
  Answer (some (picked, h)) = (p : String) × Moved r hash h picked p × Kept r hash h picked p

  try_field-Answer :
      (field value : String) (p : Option String) (later : Option (Picked × r.Hash))
      → r.hget hash field ≡ some value
      → ((prefix : String) → p ≡ some prefix → FieldOf prefix field)
      → Answer later
      → Answer (try_field r time hash field value p later)
  unfolding try_field
  try_field-Answer field value none later e own h = h
  try_field-Answer field value (some prefix) later e own h =
      elim (Bool-cases (is_some (r.hget hash (prefix <> ":active")))) [
        | inl taken ↦ rw taken h
        | inr free ↦ rw free (
          prefix,
          record {
            of_prefix = own prefix refl;
            active_is = refl;
            was_free = none_of_absent _ free;
            queued = e;
            now_active = promote-active prefix field value;
            gone = promote-gone prefix field value (none_of_absent _ free) e (own prefix refl);
          },
          (λ g v q n. promote-kept prefix field value g v (none_of_absent _ free) q n),
        )
      ]

  scan-Answer :
      (prefix_of : String → Option String) (fields : List (String × String))
      (later : Option (Picked × r.Hash))
      → ((field prefix : String) → prefix_of field ≡ some prefix → FieldOf prefix field)
      → All (λ e. r.hget hash e.0 ≡ some e.1) fields
      → Answer later
      → Answer (scan r time prefix_of fields hash later)
  unfolding scan
  scan-Answer prefix_of [] later own there h = h
  scan-Answer prefix_of (e ∷ fields) later own there h =
      try_field-Answer e.0 e.1 (prefix_of e.0) _ there.0 (own e.0)
        (scan-Answer prefix_of fields later own there.1 h)

  pick_job-Answer : Answer (pick_job r time hash)
  unfolding pick_job
  pick_job-Answer =
      scan-Answer recovery_prefix _ _ recovery_prefix-FieldOf (documented.hget-hgetall hash)
        (scan-Answer pending_prefix _ _ pending_prefix-FieldOf (documented.hget-hgetall hash) tt)

  Answer-of :
      (a : Option (Picked × r.Hash)) (picked : Picked) (h : r.Hash)
      → a ≡ some (picked, h)
      → Answer a
      → Answer (some (picked, h))
  Answer-of a picked h e m = rw e at m

  -- A job that the picking script gives out was the value of a recovery or pending field of a
  -- prefix without an active job. It is moved to the active field of that prefix, and is no longer
  -- in the field that it was picked from, so that it is not given out again.
  pub pick_job-Moved :
      (picked : Picked) (hash' : r.Hash)
      → pick_job r time hash ≡ some (picked, hash')
      → (prefix : String) × Moved r hash hash' picked prefix
  pick_job-Moved picked hash' e = let m = Answer-of _ picked hash' e pick_job-Answer in (m.0, m.1)

  -- Picking a job loses no other one: an entry of the queue keeps its value, unless it is the
  -- field that was picked or a heartbeat.
  pub pick_job-keeps :
      (picked : Picked) (hash' : r.Hash) (g v : String)
      → pick_job r time hash ≡ some (picked, hash')
      → r.hget hash g ≡ some v
      → g ≢ picked.field
      → ends_with g ":heartbeat" ≡ false
      → r.hget hash' g ≡ some v
  pick_job-keeps picked hash' g v e queued not_picked not_beat =
      let m = Answer-of _ picked hash' e pick_job-Answer in
      elim (m.2 g v queued (no_ending g m.0 ":heartbeat" not_beat)) [
        | inl same ↦ absurd (not_picked same)
        | inr kept ↦ kept
      ]
