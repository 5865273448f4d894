-- ===== src/ReproducerLock/Promote.antt =====
-- The promotion of the tasks that wait for a lock.
use Prim.Native.String.{slice}
use text.Mathlib.TextPositions.{slice-append_left}
use ai_workflows.Common.{
  ℕ, zero, suc, ◌<◌, String, ◌<>◌, Bool, true, false, Option, some, List, [], ◌∷◌, ◌≡◌, ◌≢◌, refl,
  sym, ap, subst, ◌∙◌, ◌||◌, ◌==◌, eq_refl, eq_iff, length, contains, arith, String-cases, inl, inr,
}
use ai_workflows.Effects.{Result, ok, raised}
use ai_workflows.Redis.Lists.{RedisLists, Documented}
use ai_workflows.ReproducerLock.Lock.{
  Json, blocked_reproducer_queue_key, target_queue, promote_payload, promote_popped, promote_loop,
  promote_blocked_reproducer_tasks,
}

-- A waiting list has another name than the queues.
target-is-no-waiting_list :
    (b : Bool) (pkg id : String) → target_queue b ≢ blocked_reproducer_queue_key pkg id
unfolding blocked_reproducer_queue_key
target-is-no-waiting_list b pkg id e = by_queue b begin
  where
    begin : slice (target_queue b) 0 18 ≡ "reproducer_blocked"
    begin =
        ap (λ s. slice s 0 18) e
        ∙ slice-append_left "reproducer_blocked" (":" <> (pkg <> (":" <> id)))

    by_queue : (b : Bool) → slice (target_queue b) 0 18 ≡ "reproducer_blocked" → ⊥
    by_queue true h = let same = (eq_iff _ _).1 h in cc
    by_queue false h = let same = (eq_iff _ _).1 h in cc

in_rest :
    (v w : String) (vs : List String) → v ≢ w → contains (v ∷ vs) w ≡ true → contains vs w ≡ true
in_rest v w vs other h = by_test (v == w) refl h
  where
    by_test : (b : Bool) → v == w ≡ b → b || contains vs w ≡ true → contains vs w ≡ true
    by_test true same g = absurd (other ((eq_iff v w).0 same))
    by_test false differ g = g

module _ (r : RedisLists) (documented : Documented r) (json : Json) where
  popped_some :
      (rest : ℕ × r.Lists → ℕ × r.Lists) (p : ℕ) (popped : Option String × r.Lists) (v : String)
      → popped.0 ≡ some v
      → promote_popped r json rest p popped
        ≡ rest (promote_payload r json (json.user_triggered v) v (p, popped.1))
  unfolding promote_popped
  popped_some rest p (o, l) v e = rw e refl

  -- One turn takes the first payload of the waiting list.
  turn :
      (fuel : ℕ) (key v : String) (vs : List String) (s : ℕ × r.Lists)
      → r.lrange s.1 key ≡ v ∷ vs
      → promote_loop r json (suc fuel) key s
        ≡ promote_loop r json fuel key
            (promote_payload r json (json.user_triggered v) v (s.0, (r.lpop key s.1).1))
  unfolding promote_loop
  turn fuel key v vs (p, l) e =
      popped_some (promote_loop r json fuel key) p (r.lpop key l) v
        (documented.lpop_head key v vs l e).0

  last_turn :
      (fuel : ℕ) (key : String) (s : ℕ × r.Lists)
      → r.lrange s.1 key ≡ []
      → promote_loop r json (suc fuel) key s ≡ s
  unfolding promote_loop promote_popped
  last_turn fuel key (p, l) e = rw (documented.lpop_empty key l e) refl

  payload-elsewhere :
      (t : Result Bool) (v key : String) (s : ℕ × r.Lists)
      → ((b : Bool) → key ≢ target_queue b)
      → r.lrange (promote_payload r json t v s).1 key ≡ r.lrange s.1 key
  unfolding promote_payload
  payload-elsewhere (ok b) v key (p, l) h = documented.lrange-lpush_other _ key v l (h b)
  payload-elsewhere (raised e) v key (p, l) h = refl

  loop-ends :
      (fuel : ℕ) (key : String) (xs : List String) (s : ℕ × r.Lists)
      → ((b : Bool) → key ≢ target_queue b)
      → r.lrange s.1 key ≡ xs
      → length xs < fuel
      → r.lrange (promote_loop r json fuel key s).1 key ≡ []
  loop-ends zero key xs s h e enough = absurd (omega arith)
  loop-ends (suc fuel) key [] s h e enough = rw (last_turn fuel key s e) e
  loop-ends (suc fuel) key (v ∷ vs) s h e enough = rw (turn fuel key v vs s e) (
      loop-ends fuel key vs _ h
        (payload-elsewhere (json.user_triggered v) v key _ h
          ∙ (documented.lpop_head key v vs s.1 e).1)
        (omega arith))

  -- Promotion empties the waiting list of a lock, when the loop is given one turn more than the
  -- list has entries.
  pub promote_blocked_reproducer_tasks-ends :
      (fuel : ℕ) (pkg lock_id : String) (l : r.Lists)
      → length (r.lrange l (blocked_reproducer_queue_key pkg lock_id)) < fuel
      → r.lrange
          (promote_blocked_reproducer_tasks r json fuel pkg lock_id l).1
          (blocked_reproducer_queue_key pkg lock_id)
        ≡ []
  unfolding promote_blocked_reproducer_tasks
  promote_blocked_reproducer_tasks-ends fuel pkg lock_id l enough =
      loop-ends fuel _ _ (0, l) (λ b e. target-is-no-waiting_list b pkg lock_id (sym e)) refl enough

  or_true : (b : Bool) → b || true ≡ true
  or_true true = refl
  or_true false = refl

  payload-keeps :
      (t : Result Bool) (v w queue : String) (s : ℕ × r.Lists)
      → contains (r.lrange s.1 queue) w ≡ true
      → contains (r.lrange (promote_payload r json t v s).1 queue) w ≡ true
  unfolding promote_payload
  payload-keeps (raised e) v w queue (p, l) h = h
  payload-keeps (ok b) v w queue (p, l) h = elim (String-cases queue (target_queue b)) [
    | inl same ↦
        rw (same, documented.lrange-lpush (target_queue b) v l, sym same, h) (or_true (v == w))
    | inr other ↦ rw (documented.lrange-lpush_other (target_queue b) queue v l other) h
  ]

  -- A payload in another list stays there.
  loop-keeps :
      (fuel : ℕ) (key queue w : String) (xs : List String) (s : ℕ × r.Lists)
      → queue ≢ key
      → r.lrange s.1 key ≡ xs
      → contains (r.lrange s.1 queue) w ≡ true
      → ((b : Bool) → key ≢ target_queue b)
      → contains (r.lrange (promote_loop r json fuel key s).1 queue) w ≡ true
  unfolding promote_loop
  loop-keeps zero key queue w xs s other e h n = h
  loop-keeps (suc fuel) key queue w [] s other e h n = rw (last_turn fuel key s e) h
  loop-keeps (suc fuel) key queue w (v ∷ vs) s other e h n = rw (turn fuel key v vs s e) (
      loop-keeps fuel key queue w vs _ other
        (payload-elsewhere (json.user_triggered v) v key _ n
          ∙ (documented.lpop_head key v vs s.1 e).1)
        (payload-keeps (json.user_triggered v) v w queue _
          (rw (documented.lpop_other key queue s.1 other) h))
        n)

  payload-moves :
      (t : Result Bool) (b : Bool) (v : String) (s : ℕ × r.Lists)
      → t ≡ ok b
      → contains (r.lrange (promote_payload r json t v s).1 (target_queue b)) v ≡ true
  unfolding promote_payload
  payload-moves t b v (p, l) e =
      rw (e, documented.lrange-lpush (target_queue b) v l, eq_refl v) refl

  loop-moves :
      (fuel : ℕ) (key w : String) (b : Bool) (xs : List String) (s : ℕ × r.Lists)
      → ((b : Bool) → key ≢ target_queue b)
      → r.lrange s.1 key ≡ xs
      → length xs < fuel
      → contains xs w ≡ true
      → json.user_triggered w ≡ ok b
      → contains (r.lrange (promote_loop r json fuel key s).1 (target_queue b)) w ≡ true
  loop-moves zero key w b xs s n e enough there task = absurd (omega arith)
  loop-moves (suc fuel) key w b [] s n e enough there task = cc
  loop-moves (suc fuel) key w b (v ∷ vs) s n e enough there task =
      rw (turn fuel key v vs s e) (elim (String-cases v w) [
        | inl same ↦
            loop-keeps fuel key (target_queue b) w vs _ (λ q. n b (sym q)) tail
              (subst
                (λ x.
                  contains
                    (r.lrange
                      (promote_payload r json (json.user_triggered v) v (s.0, (r.lpop key s.1).1)).1
                      (target_queue b))
                    x
                  ≡ true)
                same (payload-moves _ b v _ (rw same task)))
              n
        | inr other ↦
            loop-moves fuel key w b vs _ n tail (omega arith) (in_rest v w vs other there) task
      ])
    where
      tail :
          r.lrange
            (promote_payload r json (json.user_triggered v) v (s.0, (r.lpop key s.1).1)).1
            key
          ≡ vs
      tail =
          payload-elsewhere (json.user_triggered v) v key _ n
          ∙ (documented.lpop_head key v vs s.1 e).1

  -- Promotion loses no task: every entry of the waiting list that is a task is afterwards in the
  -- queue that its trigger asks for, when the loop is given one turn more than the list has
  -- entries.
  pub promote_blocked_reproducer_tasks-moves :
      (fuel : ℕ) (pkg lock_id payload : String) (b : Bool) (l : r.Lists)
      → length (r.lrange l (blocked_reproducer_queue_key pkg lock_id)) < fuel
      → contains (r.lrange l (blocked_reproducer_queue_key pkg lock_id)) payload ≡ true
      → json.user_triggered payload ≡ ok b
      → contains
          (r.lrange (promote_blocked_reproducer_tasks r json fuel pkg lock_id l).1 (target_queue b))
          payload
        ≡ true
  unfolding promote_blocked_reproducer_tasks
  promote_blocked_reproducer_tasks-moves fuel pkg lock_id payload b l enough there task =
      loop-moves fuel _ payload b _ (0, l) (λ q e. target-is-no-waiting_list q pkg lock_id (sym e))
        refl enough there task
