-- ===== src/Examples/IssueLockSteps.antt =====
-- The lock of an issue: uses with even numbers are for one issue, those with odd ones for another.
use Prim.Native.String.{[] as nil, ◌∷◌ as ◌∷ᶜ◌}
use ai_workflows.Common.{
  ℕ, zero, suc, String, true, none, some, List, [], ◌∷◌, ◌≡◌, refl, ap, sym, ◌∙◌, arith,
}
use ai_workflows.IssueLock.{
  Call, lock_key_prefix, default_lock_ttl_ms, Reply, Phase, Event, start, step, run,
  conditional_pexpire,
}
use ai_workflows.IssueLock.Exclusive.{Distinct, run-exclusive}
use ai_workflows.IssueLock.Owner.{LockRun, run-LockRun}
use ai_workflows.Examples.Strings.{Texts, texts, texts-Documented}

abbrev strokes : ℕ → String
strokes zero = nil
strokes (suc n) = "a" ∷ᶜ strokes n

abbrev count : String → ℕ
count nil = 0
count (c ∷ᶜ s) = suc (count s)

count-strokes : (n : ℕ) → count (strokes n) ≡ n
count-strokes zero = refl
count-strokes (suc n) = ap suc (count-strokes n)

-- Written in two ways.
abbrev issue : ℕ → String
issue zero = "rhel-1"
issue (suc zero) = "RHEL-2"
issue (suc (suc n)) = "RHEL-1"

abbrev call : ℕ → Call
call i = record {
  issue_key = issue i;
  token = strokes i;
  ttl_ms = default_lock_ttl_ms;
  prefix = lock_key_prefix;
}

call-Distinct : Distinct call
call-Distinct i j e = sym (count-strokes i) ∙ (ap count e ∙ count-strokes j)

abbrev empty : Texts
empty k = none

-- The first use enters, and a second for the issue is refused; the first loses an answer of Redis,
-- and extends its lease at the next beat; a use for another issue enters.
abbrev events : List Event
events =
    Event.enter 0 Reply.answered
    ∷ Event.enter 2 Reply.answered
    ∷ Event.tick 100000
    ∷ Event.beat 0 Reply.unanswered
    ∷ Event.tick 100000
    ∷ Event.beat 0 Reply.answered
    ∷ Event.enter 1 Reply.answered
    ∷ []

refused : (run texts call events (start texts 5 empty)).phase 2 ≡ Phase.refused
unfolding run step conditional_pexpire
refused = refl

run-exclusive_example : ◌≡◌ {A = ℕ} 0 0
unfolding run step conditional_pexpire
run-exclusive_example =
    run-exclusive texts texts-Documented call call-Distinct events 5 empty 0 0 500005 500005 true
      true refl refl (omega arith) (omega arith) refl

run-LockRun_example :
    LockRun (some "" ∷ some "aa" ∷ none ∷ some "" ∷ none ∷ some "" ∷ some "a" ∷ []) none (some "")
unfolding run step conditional_pexpire
run-LockRun_example =
    run-LockRun texts texts-Documented call (λ i. omega arith) events "lock:triage:RHEL-1"
      (start texts 5 empty)
