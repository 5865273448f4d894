-- ===== src/IssueLock/Exclusive.antt =====
-- What holds of every use of `issue_lock` at every moment: until its lease ends, the key of its
-- issue has its token.
use ai_workflows.Common.{
  ℕ, ◌+◌, ◌<◌, Bool, true, false, List, [], ◌∷◌, ◌≡◌, ◌≢◌, refl, sym, ap, ◌∙◌, subst, inl, inr,
  Bool-cases, eqb, eqb-eq, arith,
}
use mathlib.Core.Option.{some-injective}
use ai_workflows.Effects.{Result}
use ai_workflows.Redis.Strings.{RedisStrings, Documented}
use ai_workflows.IssueLock.{
  Call, lock_key, Reply, Phase, Event, sent, entered, after_beat, acquire_issue_lock,
  release_issue_lock, extend_issue_lock, World, start, answer, enter_from, beat_from, leave_from,
  step, run,
}
use ai_workflows.IssueLock.Leases.{
  Spares, sent-Spares, acquire-Spares, extend-Spares, release-Spares, Leased, acquire-Leased,
  extend-Leased, extend_lost, entered-Leased, beaten-Leased,
}

abbrev pub Distinct : (ℕ → Call) → Type 0
Distinct calls = (i j : ℕ) → (calls i).token ≡ (calls j).token → i ≡ j

left_apart : (l : ℕ) (b : Bool) → Phase.left ≢ Phase.inside l b
left_apart l b h = cc

module _ (r : RedisStrings) (documented : Documented r) (calls : ℕ → Call)
    (distinct : Distinct calls) where
  abbrev pub Kept : World r → Type 0
  Kept w =
      (e l : ℕ) (b : Bool)
      → w.phase e ≡ Phase.inside l b
      → Leased r documented w.now (calls e) l w.store

  -- A command of one use keeps what every use relies on.
  answer-Kept :
      (i : ℕ) (next : Result Bool → Phase) (outcome : Result Bool × r.Store) (w : World r)
      → Spares r documented w.now (calls i).token w.store outcome.1
      → ((l : ℕ) (b : Bool)
          → next outcome.0 ≡ Phase.inside l b
          → Leased r documented w.now (calls i) l outcome.1)
      → Kept w
      → Kept (answer r i next outcome w)
  answer-Kept i next outcome w spares own kept e l b = elim (Bool-cases (eqb i e)) [
    | inl same ↦ rw same (λ h.
        subst (λ n. Leased r documented w.now (calls n) l outcome.1) (eqb-eq i e same) (own l b h))
    | inr other ↦ rw other (λ h.
        let leased = kept e l b h in
        record {
          bounded = leased.bounded;
          kept = λ u from until.
              spares u (lock_key (calls e)) (calls e).token
                (leased.kept w.now (omega arith) (omega arith))
                (λ same. let k = distinct e i same in ground arith)
              ∙ leased.kept u from until;
        })
  ]

  enter_from-Kept :
      (i : ℕ) (reply : Reply) (p : Phase) (w : World r)
      → Kept w
      → Kept (enter_from r calls i reply p w)
  enter_from-Kept i reply Phase.waiting w kept =
      answer-Kept i (entered (w.now + (calls i).ttl_ms))
        (sent reply (acquire_issue_lock r w.now (calls i) w.store) w.store) w
        (sent-Spares r documented w.now (calls i).token reply
          (acquire_issue_lock r w.now (calls i) w.store) w.store
          (acquire-Spares r documented w.now (calls i) w.store))
        (λ l b h.
          entered-Leased r documented w.now (calls i) reply
            (acquire_issue_lock r w.now (calls i) w.store) w.store l b
            (acquire-Leased r documented w.now (calls i) w.store) h)
        kept
  enter_from-Kept i reply Phase.refused w kept = kept
  enter_from-Kept i reply Phase.left w kept = kept
  enter_from-Kept i reply (Phase.inside l b) w kept = kept

  beat_from-Kept :
      (i : ℕ) (reply : Reply) (p : Phase) (w : World r)
      → w.phase i ≡ p
      → Kept w
      → Kept (beat_from r calls i reply p w)
  beat_from-Kept i reply (Phase.inside lease true) w here kept =
      answer-Kept i (after_beat lease (w.now + (calls i).ttl_ms))
        (sent reply (extend_issue_lock r w.now (calls i) w.store) w.store) w
        (sent-Spares r documented w.now (calls i).token reply
          (extend_issue_lock r w.now (calls i) w.store) w.store
          (extend-Spares r documented w.now (calls i) w.store))
        (λ l b h.
          beaten-Leased r documented w.now (calls i) reply
            (extend_issue_lock r w.now (calls i) w.store) w.store lease l b
            (extend-Leased r documented w.now (calls i) w.store)
            (extend_lost r documented w.now (calls i) w.store) (kept i lease true here) h)
        kept
  beat_from-Kept i reply (Phase.inside lease false) w here kept = kept
  beat_from-Kept i reply Phase.waiting w here kept = kept
  beat_from-Kept i reply Phase.refused w here kept = kept
  beat_from-Kept i reply Phase.left w here kept = kept

  leave_from-Kept :
      (i : ℕ) (reply : Reply) (p : Phase) (w : World r)
      → Kept w
      → Kept (leave_from r calls i reply p w)
  leave_from-Kept i reply (Phase.inside lease beating) w kept =
      answer-Kept i (λ outcome. Phase.left)
        (sent reply (release_issue_lock r w.now (calls i) w.store) w.store) w
        (sent-Spares r documented w.now (calls i).token reply
          (release_issue_lock r w.now (calls i) w.store) w.store
          (release-Spares r documented w.now (calls i) w.store))
        (λ l b h. absurd (left_apart l b h)) kept
  leave_from-Kept i reply Phase.waiting w kept = kept
  leave_from-Kept i reply Phase.refused w kept = kept
  leave_from-Kept i reply Phase.left w kept = kept

  tick-Kept : (d : ℕ) (w : World r) → Kept w → Kept (record w { now = w.now + d })
  tick-Kept d w kept e l b h =
      let leased = kept e l b h in
      record {
        bounded = omega (arith, leased.bounded);
        kept = λ u from until. leased.kept u (omega arith) until;
      }

  step-Kept : (event : Event) (w : World r) → Kept w → Kept (step r calls event w)
  unfolding step
  step-Kept (Event.tick d) w kept = tick-Kept d w kept
  step-Kept (Event.enter i reply) w kept = enter_from-Kept i reply (w.phase i) w kept
  step-Kept (Event.beat i reply) w kept = beat_from-Kept i reply (w.phase i) w refl kept
  step-Kept (Event.leave i reply) w kept = leave_from-Kept i reply (w.phase i) w kept

  run-Kept : (events : List Event) (w : World r) → Kept w → Kept (run r calls events w)
  unfolding run
  run-Kept [] w kept = kept
  run-Kept (event ∷ events) w kept = run-Kept events (step r calls event w) (step-Kept event w kept)

  -- Whatever the events, errors and lost answers among them: two uses of `issue_lock` that are
  -- inside the block, neither with its lease run out, and have the same key, are one use, when the
  -- tokens are distinct.
  pub run-exclusive :
      (events : List Event) (now : ℕ) (store : r.Store) (i j l m : ℕ) (a b : Bool)
      → let w = run r calls events (start r now store) in
        w.phase i ≡ Phase.inside l a
        → w.phase j ≡ Phase.inside m b
        → w.now < l
        → w.now < m
        → lock_key (calls i) ≡ lock_key (calls j)
        → i ≡ j
  run-exclusive events now store i j l m a b in_i in_j until_i until_j same =
      let w = run r calls events (start r now store) in
      let kept = run-Kept events (start r now store) (λ e l b h. cc) in
      let mine = (kept i l a in_i).kept w.now (omega arith) until_i in
      let theirs = (kept j m b in_j).kept w.now (omega arith) until_j in
      distinct i j (some-injective _ _ (sym mine ∙ (ap (λ k. r.get w.now k w.store) same ∙ theirs)))
