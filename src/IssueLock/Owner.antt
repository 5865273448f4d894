-- ===== src/IssueLock/Owner.antt =====
-- The lock as its users think of it: it has an owner or none, is taken when free, dropped by its
-- owner, and expires when time passes. The code over Redis does no more than this.
use ai_workflows.Common.{
  ℕ, ◌+◌, ◌≤◌, ◌<◌, String, Bool, true, false, Option, none, some, List, [], ◌∷◌, ◌≡◌, refl, sym,
  ap, ◌∙◌, inl, inr, Bool-cases, Option-cases, String-cases, arith, map,
}
use ai_workflows.MergeQueue.Scripts.{holds}
use ai_workflows.Redis.Strings.{RedisStrings, Documented}
use ai_workflows.IssueLock.{
  Call, lock_key, Reply, Phase, Event, sent, conditional_del, conditional_pexpire,
  acquire_issue_lock, release_issue_lock, extend_issue_lock, World, enter_from, beat_from,
  leave_from, step, run,
}
use ai_workflows.IssueLock.Leases.{holder}

-- A step of the abstract lock, by the user of a token or, where there is none, by time.
pub data LockStep (who o o' : Option String) : Type 0 where
  stays : o' ≡ o → LockStep who o o'
  taken : (t : String) → who ≡ some t → o ≡ none → o' ≡ some t → LockStep who o o'
  dropped : (t : String) → who ≡ some t → o ≡ some t → o' ≡ none → LockStep who o o'
  expired : (t : String) → who ≡ none → o ≡ some t → o' ≡ none → LockStep who o o'

abbrev pub LockRun : List (Option String) → Option String → Option String → Type 0
LockRun [] o o' = o' ≡ o
LockRun (who ∷ whos) o o' = (m : Option String) × LockStep who o m × LockRun whos m o'

module _ (calls : ℕ → Call) where
  abbrev pub actor : Event → Option String
  actor (Event.tick d) = none
  actor (Event.enter i reply) = some (calls i).token
  actor (Event.beat i reply) = some (calls i).token
  actor (Event.leave i reply) = some (calls i).token

module _ (r : RedisStrings) (documented : Documented r) where
  acquire-LockStep :
      (now : ℕ) (c : Call) (k : String) (s : r.Store)
      → 0 < c.ttl_ms
      → LockStep (some c.token) (r.get now k s) (r.get now k (acquire_issue_lock r now c s).1)
  acquire-LockStep now c k s positive = elim (String-cases k (lock_key c)) [
    | inl same ↦ elim (Option-cases (r.get now (lock_key c) s)) [
      | inl free ↦ LockStep.taken c.token refl (ap (λ m. r.get now m s) same ∙ free) (
          ap (λ m. r.get now m (acquire_issue_lock r now c s).1) same
          ∙ documented.get-set_nx now now c.ttl_ms (lock_key c) c.token s free (omega arith)
              (omega arith))
      | inr (w, held) ↦ LockStep.stays (
          ap (λ done. r.get now k done.1)
            (documented.set_nx_held now c.ttl_ms (lock_key c) c.token w s held))
    ]
    | inr apart ↦
        LockStep.stays (documented.get-set_nx_other now now c.ttl_ms (lock_key c) k c.token s apart)
  ]

  release-LockStep :
      (now : ℕ) (c : Call) (k : String) (s : r.Store)
      → LockStep (some c.token) (r.get now k s) (r.get now k (release_issue_lock r now c s).1)
  unfolding conditional_del
  release-LockStep now c k s = elim (Bool-cases (holds (r.get now (lock_key c) s) c.token)) [
    | inl held ↦ rw held (elim (String-cases k (lock_key c)) [
      | inl same ↦
          LockStep.dropped c.token refl
            (ap (λ m. r.get now m s) same ∙ holder (r.get now (lock_key c) s) c.token held)
            (ap (λ m. r.get now m (r.del (lock_key c) s)) same
              ∙ documented.get-del now (lock_key c) s)
      | inr apart ↦ LockStep.stays (documented.get-del_other now (lock_key c) k s apart)
    ])
    | inr lost ↦ rw lost (LockStep.stays refl)
  ]

  extend-LockStep :
      (now : ℕ) (c : Call) (k : String) (s : r.Store)
      → 0 < c.ttl_ms
      → LockStep (some c.token) (r.get now k s) (r.get now k (extend_issue_lock r now c s).1)
  unfolding conditional_pexpire
  extend-LockStep now c k s positive =
      elim (Bool-cases (holds (r.get now (lock_key c) s) c.token)) [
        | inl held ↦ rw held (elim (String-cases k (lock_key c)) [
          | inl same ↦
              let owned = holder (r.get now (lock_key c) s) c.token held in
              LockStep.stays (
                ap (λ m. r.get now m (r.pexpire now (lock_key c) c.ttl_ms s)) same
                ∙ (documented.get-pexpire now now c.ttl_ms (lock_key c) c.token s owned
                      (omega arith) (omega arith)
                    ∙ sym (ap (λ m. r.get now m s) same ∙ owned)))
          | inr apart ↦
              LockStep.stays (documented.get-pexpire_other now now c.ttl_ms (lock_key c) k s apart)
        ])
        | inr lost ↦ rw lost (LockStep.stays refl)
      ]

  sent-LockStep :
      (now : ℕ) (who : Option String) (k : String) (reply : Reply) (done : Bool × r.Store)
      (s : r.Store)
      → LockStep who (r.get now k s) (r.get now k done.1)
      → LockStep who (r.get now k s) (r.get now k (sent reply done s).1)
  sent-LockStep now who k Reply.answered (b, s') s h = h
  sent-LockStep now who k Reply.failed (b, s') s h = LockStep.stays refl
  sent-LockStep now who k Reply.unanswered (b, s') s h = h

  tick-LockStep :
      (now later : ℕ) (k : String) (s : r.Store)
      → now ≤ later
      → LockStep none (r.get now k s) (r.get later k s)
  tick-LockStep now later k s h = elim (Option-cases (r.get later k s)) [
    | inl gone ↦ elim (Option-cases (r.get now k s)) [
      | inl free ↦ LockStep.stays (gone ∙ sym free)
      | inr (v, held) ↦ LockStep.expired v refl held gone
    ]
    | inr (v, still) ↦ LockStep.stays (still ∙ sym (documented.get_later now later k v s h still))
  ]

  module _ (calls : ℕ → Call) (positive : (i : ℕ) → 0 < (calls i).ttl_ms) where
    abbrev Stepped : Event → String → World r → World r → Type 0
    Stepped event k w w' =
        LockStep (actor calls event) (r.get w.now k w.store) (r.get w'.now k w'.store)

    enter_from-Stepped :
        (i : ℕ) (reply : Reply) (p : Phase) (k : String) (w : World r)
        → Stepped (Event.enter i reply) k w (enter_from r calls i reply p w)
    enter_from-Stepped i reply Phase.waiting k w =
        sent-LockStep w.now (some (calls i).token) k reply
          (acquire_issue_lock r w.now (calls i) w.store) w.store
          (acquire-LockStep w.now (calls i) k w.store (positive i))
    enter_from-Stepped i reply Phase.refused k w = LockStep.stays refl
    enter_from-Stepped i reply Phase.left k w = LockStep.stays refl
    enter_from-Stepped i reply (Phase.inside l b) k w = LockStep.stays refl

    beat_from-Stepped :
        (i : ℕ) (reply : Reply) (p : Phase) (k : String) (w : World r)
        → Stepped (Event.beat i reply) k w (beat_from r calls i reply p w)
    beat_from-Stepped i reply (Phase.inside lease true) k w =
        sent-LockStep w.now (some (calls i).token) k reply
          (extend_issue_lock r w.now (calls i) w.store) w.store
          (extend-LockStep w.now (calls i) k w.store (positive i))
    beat_from-Stepped i reply (Phase.inside lease false) k w = LockStep.stays refl
    beat_from-Stepped i reply Phase.waiting k w = LockStep.stays refl
    beat_from-Stepped i reply Phase.refused k w = LockStep.stays refl
    beat_from-Stepped i reply Phase.left k w = LockStep.stays refl

    leave_from-Stepped :
        (i : ℕ) (reply : Reply) (p : Phase) (k : String) (w : World r)
        → Stepped (Event.leave i reply) k w (leave_from r calls i reply p w)
    leave_from-Stepped i reply (Phase.inside lease b) k w =
        sent-LockStep w.now (some (calls i).token) k reply
          (release_issue_lock r w.now (calls i) w.store) w.store
          (release-LockStep w.now (calls i) k w.store)
    leave_from-Stepped i reply Phase.waiting k w = LockStep.stays refl
    leave_from-Stepped i reply Phase.refused k w = LockStep.stays refl
    leave_from-Stepped i reply Phase.left k w = LockStep.stays refl

    step-Stepped :
        (event : Event) (k : String) (w : World r) → Stepped event k w (step r calls event w)
    unfolding step
    step-Stepped (Event.tick d) k w = tick-LockStep w.now (w.now + d) k w.store (omega arith)
    step-Stepped (Event.enter i reply) k w = enter_from-Stepped i reply (w.phase i) k w
    step-Stepped (Event.beat i reply) k w = beat_from-Stepped i reply (w.phase i) k w
    step-Stepped (Event.leave i reply) k w = leave_from-Stepped i reply (w.phase i) k w

    -- Refinement: whatever the events, what Redis answers for a key moves as the abstract lock
    -- does, one step for each event and by its user: it is taken only when free, dropped only by
    -- the owner, and lost otherwise only as time passes. The times to live are positive.
    pub run-LockRun :
        (events : List Event) (k : String) (w : World r)
        → LockRun
            (map (actor calls) events)
            (r.get w.now k w.store)
            (r.get (run r calls events w).now k (run r calls events w).store)
    unfolding run
    run-LockRun [] k w = refl
    run-LockRun (event ∷ events) k w =
        let w' = step r calls event w in
        (r.get w'.now k w'.store, step-Stepped event k w, run-LockRun events k w')
