-- ===== src/Effects/Preserves.antt =====
-- What an action keeps true of its state, whether it returns or raises: one rule for each form.
use ai_workflows.Common.{◌≡◌, refl, ap, subst, Bool, true, false, if◌then◌else◌}
use ai_workflows.Effects.{
  Exn, Result, ok, raised, Act, pure, raise, lift, ask, attempt, after, ◌>>=◌,
}

pub record Preserves {ℓ} {S A : Type ℓ} (P : S → Type ℓ) (m : Act S A) : Type ℓ where
  pub run_keeps : (s : S) → P s → P (m s).1

module _ {ℓ} {S A : Type ℓ} {P : S → Type ℓ} where
  pub Preserves-pure : (a : A) → Preserves P (pure a)
  unfolding pure
  Preserves-pure a = record { run_keeps = λ s p. p }

  pub Preserves-raise : (e : Exn) → Preserves P (raise {A = A} e)
  unfolding raise
  Preserves-raise e = record { run_keeps = λ s p. p }

  pub Preserves-lift : (r : Result A) → Preserves P (lift r)
  unfolding lift
  Preserves-lift r = record { run_keeps = λ s p. p }

  pub Preserves-ask : (f : S → Result A) → Preserves P (ask f)
  unfolding ask
  Preserves-ask f = record { run_keeps = λ s p. p }

  pub Preserves-attempt : (m : Act S A) → Preserves P m → Preserves P (attempt m)
  unfolding attempt
  Preserves-attempt m k = record { run_keeps = k.run_keeps }

  -- Each branch may use the outcome of the test.
  pub Preserves-if :
      (b : Bool) (m n : Act S A)
      → (b ≡ true → Preserves P m)
      → (b ≡ false → Preserves P n)
      → Preserves P (if b then m else n)
  Preserves-if true m n yes_keeps no_keeps = yes_keeps refl
  Preserves-if false m n yes_keeps no_keeps = no_keeps refl

module _ {ℓ} {S A B : Type ℓ} {P : S → Type ℓ} where
  Preserves-after :
      (f : A → Act S B) (r : Result A) → ((a : A) → Preserves P (f a)) → Preserves P (after f r)
  Preserves-after f (ok a) k = k a
  Preserves-after f (raised e) k = record { run_keeps = λ s p. p }

  pub Preserves-bind :
      (m : Act S A) (f : A → Act S B)
      → Preserves P m
      → ((a : A) → Preserves P (f a))
      → Preserves P (m >>= f)
  unfolding ◌>>=◌
  Preserves-bind m f first rest = record {
    run_keeps =
        λ s p. let (r, t) = m s in (Preserves-after f r rest).run_keeps t (first.run_keeps s p);
  }

pub ruleset keeping = (
  Preserves-pure, Preserves-raise, Preserves-lift, Preserves-ask, Preserves-attempt, Preserves-if,
  Preserves-bind,
)

-- What holds of every value that an action returns.
pub record Returns {ℓ} {S A : Type ℓ} (Q : A → Type ℓ) (m : Act S A) : Type ℓ where
  pub result : (s : S) (a : A) → (m s).0 ≡ ok a → Q a

module _ {ℓ} {S A B : Type ℓ} {P : S → Type ℓ} where
  after-keeps :
      (f : A → Act S B) (r : Result A) (t : S)
      → ((a : A) → r ≡ ok a → Preserves P (f a))
      → P t
      → P (after f r t).1
  after-keeps f (ok a) t k p = (k a refl).run_keeps t p
  after-keeps f (raised e) t k p = p

module _ {ℓ} {S A B : Type ℓ} {P : S → Type ℓ} {Q : A → Type ℓ} where
  -- What follows may use what is known of the value.
  pub Preserves-bind_value :
      (m : Act S A) (f : A → Act S B)
      → Preserves P m
      → Returns Q m
      → ((a : A) → Q a → Preserves P (f a))
      → Preserves P (m >>= f)
  unfolding ◌>>=◌
  Preserves-bind_value m f first value rest = record {
    run_keeps = λ s p.
        let (r, t) = m s in
        after-keeps f (m s).0 (m s).1 (λ a e. rest a (value.result s a e)) (first.run_keeps s p);
  }

module _ {ℓ} {S A B : Type ℓ} {R : B → Type ℓ} where
  after-returns :
      (f : A → Act S B) (r : Result A) (t : S) (b : B)
      → ((a : A) → r ≡ ok a → Returns R (f a))
      → (after f r t).0 ≡ ok b
      → R b
  after-returns f (ok a) t b k e = (k a refl).result t b e
  after-returns f (raised x) t b k e = cc

  pub Returns-bind :
      (m : Act S A) (f : A → Act S B) → ((a : A) → Returns R (f a)) → Returns R (m >>= f)
  unfolding ◌>>=◌
  Returns-bind m f rest = record {
    result = λ s b e. after-returns f (m s).0 (m s).1 b (λ a _. rest a) e;
  }

  after-returns_value :
      {Q : A → Type ℓ} (f : A → Act S B) (r : Result A) (t : S) (b : B)
      → ((a : A) → r ≡ ok a → Q a)
      → ((a : A) → Q a → Returns R (f a))
      → (after f r t).0 ≡ ok b
      → R b
  after-returns_value f (ok a) t b q k e = (k a (q a refl)).result t b e
  after-returns_value f (raised x) t b q k e = cc

  pub Returns-bind_value :
      {Q : A → Type ℓ} (m : Act S A) (f : A → Act S B)
      → Returns Q m
      → ((a : A) → Q a → Returns R (f a))
      → Returns R (m >>= f)
  unfolding ◌>>=◌
  Returns-bind_value m f value rest = record {
    result = λ s b e. after-returns_value f (m s).0 (m s).1 b (value.result s) rest e;
  }

module _ {ℓ} {A : Type ℓ} where
  value_or : A → Result A → A
  value_or d (ok a) = a
  value_or d (raised e) = d

  pub ok-injective : {a b : A} → ok a ≡ ok b → a ≡ b
  unfolding value_or
  ok-injective {a} e = ap (value_or a) e

module _ {ℓ} {S A : Type ℓ} {Q : A → Type ℓ} where
  pub Returns-pure : (a : A) → Q a → Returns {S = S} Q (pure a)
  unfolding pure
  Returns-pure a q = record { result = λ s b e. subst Q (ok-injective e) q }

  pub Returns-if :
      (b : Bool) (m n : Act S A) → Returns Q m → Returns Q n → Returns Q (if b then m else n)
  Returns-if true m n p q = p
  Returns-if false m n p q = q

module _ {ℓ} {S A : Type ℓ} where
  -- A value that was read is an answer given in some state.
  pub Returns-ask : (f : S → Result A) → Returns (λ a. (s : S) × (f s ≡ ok a)) (ask f)
  unfolding ask
  Returns-ask f = record { result = λ s a e. (s, e) }

module _ {ℓ} {S A : Type ℓ} {Q : A → Type ℓ} where
  pub Returns-raise : (e : Exn) → Returns {S = S} Q (raise e)
  unfolding raise
  Returns-raise e = record { result = λ s a h. cc }

module _ {ℓ} {S A : Type ℓ} where
  pub Returns-lift : (r : Result A) → Returns {S = S} (λ a. r ≡ ok a) (lift r)
  unfolding lift
  Returns-lift r = record { result = λ s a e. e }

  -- A weaker property holds too.
  pub Returns-weaken :
      {Q R : A → Type ℓ} (m : Act S A) → Returns Q m → ((a : A) → Q a → R a) → Returns R m
  Returns-weaken m k weaker = record { result = λ s a e. weaker a (k.result s a e) }

  -- Each branch may use the outcome of the test.
  pub Returns-test :
      {Q : A → Type ℓ} (b : Bool) (m n : Act S A)
      → (b ≡ true → Returns Q m)
      → (b ≡ false → Returns Q n)
      → Returns Q (if b then m else n)
  Returns-test true m n p q = p refl
  Returns-test false m n p q = q refl
