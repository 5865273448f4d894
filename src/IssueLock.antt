-- ===== src/IssueLock.antt =====
-- ymir/common/issue_lock.py: the lock of an issue, which expires, is extended by a heartbeat and is
-- released on exit. Any number of uses of `issue_lock` run side by side, as a sequence of events;
-- a command to Redis may fail, or be done with its answer lost.
pub mod Leases
pub mod Exclusive
pub mod Owner
use ai_workflows.Common.{
  ℕ, ◌+◌, String, ◌<>◌, Bool, true, false, Option, none, some, List, [], ◌∷◌, eqb, upper,
  if◌then◌else◌,
}
use ai_workflows.Effects.{Result, ok, raised, Exn, ExnKind, exn}
use ai_workflows.MergeQueue.Scripts.{holds}
use ai_workflows.Redis.Strings.{RedisStrings}

abbrev pub lock_key_prefix : String
lock_key_prefix = "lock:triage:"

abbrev pub default_lock_ttl_ms : ℕ
default_lock_ttl_ms = 300000

-- The arguments of a use of `issue_lock`, with the token that it draws.
pub record Call : Type 0 where
  pub issue_key : String
  pub token : String
  pub ttl_ms : ℕ
  pub prefix : String

abbrev pub lock_key : Call → String
lock_key c = c.prefix <> upper c.issue_key

-- What becomes of a command: it is done and answered, not done, or done with its answer lost.
pub data Reply : Type 0 where
  answered failed unanswered : Reply

-- Where a use of `issue_lock` is. Inside the block, the time up to which the last extension that
-- was answered keeps the lock, and whether the heartbeat still runs.
pub data Phase : Type 0 where
  waiting refused left : Phase
  inside : ℕ → Bool → Phase

pub data Event : Type 0 where
  tick : ℕ → Event
  enter beat leave : ℕ → Reply → Event

abbrev redis_error : Exn
redis_error = exn ExnKind.redis_error "connection"

module _ {ℓ} {S A : Type ℓ} where
  abbrev pub sent : Reply → A × S → S → Result A × S
  sent Reply.answered (a, s') s = (ok a, s')
  sent Reply.failed (a, s') s = (raised redis_error, s)
  sent Reply.unanswered (a, s') s = (raised redis_error, s')

abbrev pub moved_to : ℕ → Phase → (ℕ → Phase) → ℕ → Phase
moved_to i p phase j = if eqb i j then p else phase j

-- How the first answer decides whether the block is entered.
abbrev pub entered : ℕ → Result Bool → Phase
entered lease (ok true) = Phase.inside lease true
entered lease (ok false) = Phase.refused
entered lease (raised e) = Phase.left

-- One turn of the loop of the heartbeat: an error is logged, and a lock that is lost ends it.
abbrev pub after_beat : ℕ → ℕ → Result Bool → Phase
after_beat lease lease' (ok true) = Phase.inside lease' true
after_beat lease lease' (ok false) = Phase.inside lease false
after_beat lease lease' (raised e) = Phase.inside lease true

module _ (r : RedisStrings) where
  unfoldable pub conditional_del : ℕ → String → String → r.Store → Bool × r.Store
  conditional_del now key token s =
      if holds (r.get now key s) token then (true, r.del key s) else (false, s)

  unfoldable pub conditional_pexpire : ℕ → String → String → ℕ → r.Store → Bool × r.Store
  conditional_pexpire now key token ttl s =
      if holds (r.get now key s) token then (true, r.pexpire now key ttl s) else (false, s)

  abbrev pub acquire_issue_lock : ℕ → Call → r.Store → Bool × r.Store
  acquire_issue_lock now c s = r.set_nx now (lock_key c) c.token c.ttl_ms s

  abbrev pub release_issue_lock : ℕ → Call → r.Store → Bool × r.Store
  release_issue_lock now c s = conditional_del now (lock_key c) c.token s

  abbrev pub extend_issue_lock : ℕ → Call → r.Store → Bool × r.Store
  extend_issue_lock now c s = conditional_pexpire now (lock_key c) c.token c.ttl_ms s

  -- The time, the locks, and where each use is.
  pub record World : Type 0 where
    pub now : ℕ
    pub store : r.Store
    pub phase : ℕ → Phase

  abbrev pub start : ℕ → r.Store → World
  start now store = record { now = now; store = store; phase = λ i. Phase.waiting }

  -- The world after a command of a use, and the phase that its answer leads to.
  abbrev pub answer : ℕ → (Result Bool → Phase) → Result Bool × r.Store → World → World
  answer i next outcome w = record w {
    store = outcome.1;
    phase = moved_to i (next outcome.0) w.phase;
  }

  module _ (calls : ℕ → Call) where
    abbrev pub enter_from : ℕ → Reply → Phase → World → World
    enter_from i reply Phase.waiting w =
        answer i (entered (w.now + (calls i).ttl_ms))
          (sent reply (acquire_issue_lock w.now (calls i) w.store) w.store) w
    enter_from i reply Phase.refused w = w
    enter_from i reply Phase.left w = w
    enter_from i reply (Phase.inside lease beating) w = w

    abbrev pub beat_from : ℕ → Reply → Phase → World → World
    beat_from i reply (Phase.inside lease true) w =
        answer i (after_beat lease (w.now + (calls i).ttl_ms))
          (sent reply (extend_issue_lock w.now (calls i) w.store) w.store) w
    beat_from i reply (Phase.inside lease false) w = w
    beat_from i reply Phase.waiting w = w
    beat_from i reply Phase.refused w = w
    beat_from i reply Phase.left w = w

    -- On exit the heartbeat is cancelled, and an error of the release is logged only.
    abbrev pub leave_from : ℕ → Reply → Phase → World → World
    leave_from i reply (Phase.inside lease beating) w =
        answer i (λ outcome. Phase.left)
          (sent reply (release_issue_lock w.now (calls i) w.store) w.store) w
    leave_from i reply Phase.waiting w = w
    leave_from i reply Phase.refused w = w
    leave_from i reply Phase.left w = w

    unfoldable pub step : Event → World → World
    step (Event.tick d) w = record w { now = w.now + d }
    step (Event.enter i reply) w = enter_from i reply (w.phase i) w
    step (Event.beat i reply) w = beat_from i reply (w.phase i) w
    step (Event.leave i reply) w = leave_from i reply (w.phase i) w

    unfoldable pub run : List Event → World → World
    run [] w = w
    run (event ∷ events) w = run events (step event w)
