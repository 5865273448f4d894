-- ===== src/MergeQueue/Scripts.antt =====
-- The Lua scripts: what each does to the hash, and its answer.
use Prim.Native.String.{len, slice}
use text.Mathlib.Text.{find?, starts_with}
use ai_workflows.Common.{
  ℕ, ◌-◌, String, ◌<>◌, Bool, true, false, Option, none, some, is_some, List, [], ◌∷◌, any, ◌||◌,
  ◌&&◌, ◌==◌, if◌then◌else◌,
}
use ai_workflows.Redis.Hash.{RedisHash}

pub data Mode : Type 0 where
  strict auto : Mode

abbrev pub is_strict : Mode → Bool
is_strict Mode.strict = true
is_strict Mode.auto = false

-- `current == expected`, where the field may be missing
abbrev pub holds : Option String → String → Bool
holds none expected = false
holds (some current) expected = current == expected

-- `string.sub(field, -#suffix) == suffix`
abbrev pub ends_with : String → String → Bool
ends_with field suffix = slice field (len field - len suffix) (len field) == suffix

abbrev pub before : String → String → String
before field suffix = slice field 0 (len field - len suffix)

abbrev pub cut_at : String → Option ℕ → Option String
cut_at field none = none
cut_at field (some i) = some (slice field 0 i)

-- The prefix of a field that may be picked in the round for `suffix`.
abbrev pub suffix_prefix : String → String → Option String
suffix_prefix field suffix = if ends_with field suffix then some (before field suffix) else none

abbrev pub or_suffix : Option String → String → String → Option String
or_suffix none field suffix = suffix_prefix field suffix
or_suffix (some p) field suffix = some p

unfoldable pub recovery_prefix : String → Option String
recovery_prefix field = or_suffix (cut_at field (find? field ":recovery:")) field ":recovery"

unfoldable pub pending_prefix : String → Option String
pending_prefix field = suffix_prefix field ":pending"

-- The answers 1, 0 and -1 of a submission.
pub data Submission : Type 0 where
  filed pending_exists active_exists : Submission

-- The field, its value and the active key of a job that is picked.
pub record Picked : Type 0 where
  pub field : String
  pub value : String
  pub active_key : String

-- `string.gsub(active, ':active$', ':heartbeat')` has two results, the text and the number of
-- replacements, and HDEL is given both.
unfoldable pub heartbeat_of : String → String × String
heartbeat_of active =
    if ends_with active ":active"
    then (before active ":active" <> ":heartbeat", "1")
    else (active, "0")

module _ (r : RedisHash) where
  open r use {Hash, hget, hset, hdel, hgetall, incr}

  -- HEXISTS
  abbrev pub hexists : Hash → String → Bool
  hexists hash field = is_some (hget hash field)

  abbrev pub recovery_prefix_exists : Hash → String → Bool
  recovery_prefix_exists hash recovery =
      hexists hash recovery || any (λ e. starts_with e.0 (recovery <> ":")) (hgetall hash)

  -- _SUBMIT_JOB_LUA
  unfoldable pub submit_job :
      (pending active value : String) → Mode → (recovery : String) → Hash → Submission × Hash
  submit_job pending active value mode recovery hash =
      if hexists hash pending
      then (pending_exists, hash)
      else (if is_strict mode && (hexists hash active || recovery_prefix_exists hash recovery)
          then (active_exists, hash)
          else (filed, hset pending value hash))

  -- `now[1] .. '.' .. now[2]` is the text `time`
  unfoldable pub promote : String → (prefix field value : String) → Hash → Hash
  promote time prefix field value hash =
      hset (prefix <> ":heartbeat") time (hset (prefix <> ":active") value (hdel field hash))

  unfoldable pub try_field :
      (time : String)
      → Hash
      → (field value : String) → Option String
      → Option (Picked × Hash)
      → Option (Picked × Hash)
  try_field time hash field value none later = later
  try_field time hash field value (some prefix) later =
      if hexists hash (prefix <> ":active")
      then later
      else some (
        record { field = field; value = value; active_key = prefix <> ":active" },
        promote time prefix field value hash,
      )

  -- One round over the fields.
  unfoldable pub scan :
      (time : String)
      → (String → Option String)
      → List (String × String)
      → Hash
      → Option (Picked × Hash)
      → Option (Picked × Hash)
  scan time prefix_of [] hash later = later
  scan time prefix_of ((field, value) ∷ fields) hash later =
      try_field time hash field value (prefix_of field) (scan time prefix_of fields hash later)

  -- _PICK_JOB_LUA: recovery jobs before pending ones
  unfoldable pub pick_job : (time : String) → Hash → Option (Picked × Hash)
  pick_job time hash =
      let fields = hgetall hash in
      scan time recovery_prefix fields hash (scan time pending_prefix fields hash none)

  -- _UPDATE_ACTIVE_LUA
  unfoldable pub update_active : (active expected value : String) → Hash → Bool × Hash
  update_active active expected value hash =
      if holds (hget hash active) expected then (true, hset active value hash) else (false, hash)

  -- Where a job is put back, with the counter as it is then.
  unfoldable pub recovery_key_for : String → Hash → String × Hash
  recovery_key_for recovery hash =
      if hexists hash recovery
      then (recovery <> (":" <> (incr hash).0), (incr hash).1)
      else (recovery, hash)

  unfoldable pub put_back : (recovery expected : String) → Hash → Hash
  put_back recovery expected hash =
      let (key, hash') = recovery_key_for recovery hash in hset key expected hash'

  -- _REQUEUE_ACTIVE_LUA
  unfoldable pub requeue_active : (active recovery expected : String) → Hash → Bool × Hash
  requeue_active active recovery expected hash =
      let (field, replacements) = heartbeat_of active in
      if holds (hget hash active) expected
      then (true, hdel replacements (hdel field (put_back recovery expected (hdel active hash))))
      else (false, hash)

  -- _HEARTBEAT_LUA
  unfoldable pub heartbeat : (active expected field time : String) → Hash → Bool × Hash
  heartbeat active expected field time hash =
      if holds (hget hash active) expected then (true, hset field time hash) else (false, hash)

  -- _COMPLETE_JOB_LUA
  unfoldable pub complete : (active expected heartbeat_field : String) → Hash → Bool × Hash
  complete active expected heartbeat_field hash =
      if holds (hget hash active) expected
      then (true, hdel heartbeat_field (hdel active hash))
      else (false, hash)

  -- _CONDITIONAL_HDEL_LUA: the move of an entry that has not been renewed since it was read
  unfoldable pub move_stale :
      (active expected recovery heartbeat_field heartbeat_expected : String) → Hash → Bool × Hash
  move_stale active expected recovery heartbeat_field heartbeat_expected hash =
      if holds (hget hash active) expected
        && (heartbeat_expected == "" || holds (hget hash heartbeat_field) heartbeat_expected)
      then (true, put_back recovery expected (hdel heartbeat_field (hdel active hash)))
      else (false, hash)
