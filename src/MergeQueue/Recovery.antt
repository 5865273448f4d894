-- ===== src/MergeQueue/Recovery.antt =====
-- What the test for recovery entries of a branch says: `recovery_prefix_exists` in the script of a
-- submission.
use ai_workflows.Common.{
  String, ◌<>◌, Bool, true, false, ◌||◌, Option, none, some, is_some, List, [], ◌∷◌, ◌≡◌, ◌⊎◌, inl,
  inr, refl, any, starts_with, All, or_cases, none_of_absent,
}
use ai_workflows.Redis.Hash.{RedisHash, Documented}
use ai_workflows.MergeQueue.Scripts.{recovery_prefix_exists}

module _ (r : RedisHash) (hash : r.Hash) (key : String) where
  -- The recovery field, or one with a colon behind it, has an entry.
  abbrev pub HasRecovery : Type 0
  HasRecovery =
      (field value : String) × (r.hget hash field ≡ some value)
      × ((field ≡ key) ⊎ (starts_with field (key <> ":") ≡ true))

  -- Neither has.
  abbrev pub NoRecovery : Type 0
  NoRecovery =
      (r.hget hash key ≡ none) × All (λ e. starts_with e.0 (key <> ":") ≡ false) (r.hgetall hash)

  numbered :
      (all : List (String × String))
      → All (λ e. r.hget hash e.0 ≡ some e.1) all
      → any (λ e. starts_with e.0 (key <> ":")) all ≡ true
      → HasRecovery
  numbered [] told h = cc
  numbered ((field, value) ∷ all) (here, told) h =
      elim (or_cases (starts_with field (key <> ":")) (any (λ e. starts_with e.0 (key <> ":")) all)
        h) [ inl this ↦ (field, value, here, inr this) | inr later ↦ numbered all told later ]

  own : (entry : Option String) → r.hget hash key ≡ entry → is_some entry ≡ true → HasRecovery
  own none e h = cc
  own (some value) e h = (key, value, e, inl refl)

  pub recovery_prefix_exists-HasRecovery :
      Documented r → recovery_prefix_exists r hash key ≡ true → HasRecovery
  recovery_prefix_exists-HasRecovery documented h =
      elim (or_cases (is_some (r.hget hash key))
        (any (λ e. starts_with e.0 (key <> ":")) (r.hgetall hash)) h) [
          | inl there ↦ own (r.hget hash key) refl there
          | inr there ↦ numbered (r.hgetall hash) (documented.hget-hgetall hash) there
        ]

  no_or : (a b : Bool) → a || b ≡ false → (a ≡ false) × (b ≡ false)
  no_or true b h = cc
  no_or false b h = (refl, h)

  none_numbered :
      (all : List (String × String))
      → any (λ e. starts_with e.0 (key <> ":")) all ≡ false
      → All (λ e. starts_with e.0 (key <> ":") ≡ false) all
  none_numbered [] h = tt
  none_numbered ((field, value) ∷ all) h =
      let (this, later) =
        no_or (starts_with field (key <> ":")) (any (λ e. starts_with e.0 (key <> ":")) all) h in
      (this, none_numbered all later)

  pub recovery_prefix_exists-NoRecovery : recovery_prefix_exists r hash key ≡ false → NoRecovery
  recovery_prefix_exists-NoRecovery h =
      let (none_own, none_other) =
        no_or (is_some (r.hget hash key)) (any (λ e. starts_with e.0 (key <> ":")) (r.hgetall hash))
          h in
      (none_of_absent _ none_own, none_numbered (r.hgetall hash) none_other)
