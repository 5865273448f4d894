-- ===== src/IssueLock/Leases.antt =====
-- What one command does to the locks: it spares those of other tokens, and an answer that keeps or
-- takes the lock keeps it for the time of its lease.
use ai_workflows.Common.{
  ℕ, ◌+◌, ◌≤◌, ◌<◌, String, Bool, true, false, Option, none, some, ◌≡◌, ◌≢◌, refl, sym, ap, ◌∙◌,
  subst, inl, inr, Bool-cases, Option-cases, String-cases, eq_iff, arith,
}
use mathlib.Core.Option.{some-injective}
use ai_workflows.MergeQueue.Scripts.{holds}
use ai_workflows.Redis.Strings.{RedisStrings, Documented}
use ai_workflows.IssueLock.{
  Call, lock_key, Reply, Phase, sent, entered, after_beat, conditional_del, conditional_pexpire,
  acquire_issue_lock, release_issue_lock, extend_issue_lock,
}

pub holder : (o : Option String) (token : String) → holds o token ≡ true → o ≡ some token
holder none token h = cc
holder (some c) token h = ap some ((eq_iff c token).0 h)

module _ (r : RedisStrings) (documented : Documented r) where
  -- A change by the holder of a token leaves alone every key that has another one.
  abbrev pub Spares : ℕ → String → r.Store → r.Store → Type 0
  Spares now token s s' =
      (u : ℕ) (k v : String) → r.get now k s ≡ some v → v ≢ token → r.get u k s' ≡ r.get u k s

  pub acquire-Spares :
      (now : ℕ) (c : Call) (s : r.Store) → Spares now c.token s (acquire_issue_lock r now c s).1
  acquire-Spares now c s u k v taken other = elim (String-cases k (lock_key c)) [
    | inl same ↦
        ap (λ done. r.get u k done.1)
          (documented.set_nx_held now c.ttl_ms (lock_key c) c.token v s
            (subst (λ m. r.get now m s ≡ some v) same taken))
    | inr apart ↦ documented.get-set_nx_other now u c.ttl_ms (lock_key c) k c.token s apart
  ]

  own_key :
      (now : ℕ) (key token k v : String) (s : r.Store)
      → holds (r.get now key s) token ≡ true
      → r.get now k s ≡ some v
      → v ≢ token
      → k ≢ key
  own_key now key token k v s held taken other same = other (
      some-injective _ _
        (sym taken ∙ (ap (λ m. r.get now m s) same ∙ holder (r.get now key s) token held)))

  pub release-Spares :
      (now : ℕ) (c : Call) (s : r.Store) → Spares now c.token s (release_issue_lock r now c s).1
  unfolding conditional_del
  release-Spares now c s u k v taken other =
      elim (Bool-cases (holds (r.get now (lock_key c) s) c.token)) [
        | inl held ↦ rw held (
            documented.get-del_other u (lock_key c) k s
              (own_key now (lock_key c) c.token k v s held taken other))
        | inr lost ↦ rw lost refl
      ]

  pub extend-Spares :
      (now : ℕ) (c : Call) (s : r.Store) → Spares now c.token s (extend_issue_lock r now c s).1
  unfolding conditional_pexpire
  extend-Spares now c s u k v taken other =
      elim (Bool-cases (holds (r.get now (lock_key c) s) c.token)) [
        | inl held ↦ rw held (
            documented.get-pexpire_other now u c.ttl_ms (lock_key c) k s
              (own_key now (lock_key c) c.token k v s held taken other))
        | inr lost ↦ rw lost refl
      ]

  -- A command that is not done, or whose answer is lost, spares them just as well.
  pub sent-Spares :
      (now : ℕ) (token : String) (reply : Reply) (done : Bool × r.Store) (s : r.Store)
      → Spares now token s done.1
      → Spares now token s (sent reply done s).1
  sent-Spares now token Reply.answered (b, s') s h = h
  sent-Spares now token Reply.failed (b, s') s h = λ u k v taken other. refl
  sent-Spares now token Reply.unanswered (b, s') s h = h

  -- What a use inside the block may rely on.
  pub record Leased (now : ℕ) (c : Call) (lease : ℕ) (s : r.Store) : Type 0 where
    pub bounded : lease ≤ now + c.ttl_ms
    pub kept : (u : ℕ) → now ≤ u → u < lease → r.get u (lock_key c) s ≡ some c.token

  pub acquire-Leased :
      (now : ℕ) (c : Call) (s : r.Store)
      → let done = acquire_issue_lock r now c s in
        done.0 ≡ true → Leased now c (now + c.ttl_ms) done.1
  acquire-Leased now c s h = elim (Option-cases (r.get now (lock_key c) s)) [
    | inl free ↦ record {
      bounded = omega arith;
      kept = λ u from until.
          documented.get-set_nx now u c.ttl_ms (lock_key c) c.token s free from until;
    }
    | inr (w, taken) ↦
        let e =
          ap (λ done. done.0)
            (documented.set_nx_held now c.ttl_ms (lock_key c) c.token w s taken) in
        cc
  ]

  pub extend-Leased :
      (now : ℕ) (c : Call) (s : r.Store)
      → let done = extend_issue_lock r now c s in
        done.0 ≡ true → Leased now c (now + c.ttl_ms) done.1
  unfolding conditional_pexpire
  extend-Leased now c s = elim (Bool-cases (holds (r.get now (lock_key c) s) c.token)) [
    | inl held ↦ rw held (λ h. record {
      bounded = omega arith;
      kept = λ u from until.
          documented.get-pexpire now u c.ttl_ms (lock_key c) c.token s
            (holder (r.get now (lock_key c) s) c.token held) from until;
    })
    | inr lost ↦ rw lost (λ h. cc)
  ]

  pub extend_lost :
      (now : ℕ) (c : Call) (s : r.Store)
      → let done = extend_issue_lock r now c s in done.0 ≡ false → done.1 ≡ s
  unfolding conditional_pexpire
  extend_lost now c s = elim (Bool-cases (holds (r.get now (lock_key c) s) c.token)) [
    | inl held ↦ rw held (λ h. cc)
    | inr lost ↦ rw lost (λ h. refl)
  ]

  shorter :
      (now : ℕ) (c : Call) (longest lease : ℕ) (s : r.Store)
      → lease ≤ longest
      → Leased now c longest s
      → Leased now c lease s
  shorter now c longest lease s h leased = record {
    bounded = omega (arith, leased.bounded);
    kept = λ u from until. leased.kept u from (omega arith);
  }

  abbrev lease_of : Phase → ℕ
  lease_of (Phase.inside lease beating) = lease
  lease_of Phase.waiting = 0
  lease_of Phase.refused = 0
  lease_of Phase.left = 0

  same_lease :
      (now : ℕ) (c : Call) (l m : ℕ) (a b : Bool) (s : r.Store)
      → Leased now c l s
      → Phase.inside l a ≡ Phase.inside m b
      → Leased now c m s
  same_lease now c l m a b s leased e = subst (λ n. Leased now c n s) (ap lease_of e) leased

  pub entered-Leased :
      (now : ℕ) (c : Call) (reply : Reply) (done : Bool × r.Store) (s : r.Store) (m : ℕ) (b : Bool)
      → (done.0 ≡ true → Leased now c (now + c.ttl_ms) done.1)
      → entered (now + c.ttl_ms) (sent reply done s).0 ≡ Phase.inside m b
      → Leased now c m (sent reply done s).1
  entered-Leased now c Reply.answered (true, s') s m b h e =
      same_lease now c (now + c.ttl_ms) m true b s' (h refl) e
  entered-Leased now c Reply.answered (false, s') s m b h e = cc
  entered-Leased now c Reply.failed (a, s') s m b h e = cc
  entered-Leased now c Reply.unanswered (a, s') s m b h e = cc

  pub beaten-Leased :
      (now : ℕ) (c : Call) (reply : Reply) (done : Bool × r.Store) (s : r.Store) (l m : ℕ)
      (b : Bool)
      → (done.0 ≡ true → Leased now c (now + c.ttl_ms) done.1)
      → (done.0 ≡ false → done.1 ≡ s)
      → Leased now c l s
      → after_beat l (now + c.ttl_ms) (sent reply done s).0 ≡ Phase.inside m b
      → Leased now c m (sent reply done s).1
  beaten-Leased now c Reply.answered (true, s') s l m b h lost old e =
      same_lease now c (now + c.ttl_ms) m true b s' (h refl) e
  beaten-Leased now c Reply.answered (false, s') s l m b h lost old e =
      subst (Leased now c m) (sym (lost refl)) (same_lease now c l m false b s old e)
  beaten-Leased now c Reply.failed (a, s') s l m b h lost old e =
      same_lease now c l m true b s old e
  beaten-Leased now c Reply.unanswered (true, s') s l m b h lost old e =
      same_lease now c l m true b s' (shorter now c (now + c.ttl_ms) l s' old.bounded (h refl)) e
  beaten-Leased now c Reply.unanswered (false, s') s l m b h lost old e =
      subst (Leased now c m) (sym (lost refl)) (same_lease now c l m true b s old e)
