-- ===== src/Effects.antt =====
-- Code that mutates a state and may raise: what was changed before a raise stays changed, so the
-- state comes back beside the exception too.
pub mod Preserves
use ai_workflows.Common.{String}

-- The exception classes that a handler of the program tells apart; `other` is any further one.
pub data ExnKind : Type 0 where
  value_error runtime_error index_error key_error http_error os_error redis_error other : ExnKind

pub record Exn : Type 0 where
  pub kind : ExnKind
  pub message : String

pub data Result {ℓ} (A : Type ℓ) : Type ℓ where
  ok : A → Result A
  raised : Exn → Result A

abbrev pub Act {ℓ} : Type ℓ → Type ℓ → Type ℓ
Act S A = S → Result A × S

abbrev pub exn : ExnKind → String → Exn
exn k m = record { kind = k; message = m }

module _ {ℓ} {S A : Type ℓ} where
  unfoldable pub pure : A → Act S A
  pure a s = (ok a, s)

  unfoldable pub raise : Exn → Act S A
  raise e s = (raised e, s)

  -- A pure computation that may raise.
  unfoldable pub lift : Result A → Act S A
  lift r s = (r, s)

  -- A read: its answer depends on the state, and leaves it alone.
  unfoldable pub ask : (S → Result A) → Act S A
  ask f s = (f s, s)

  -- `try`: the outcome becomes a value, and the state stays where the block left it.
  unfoldable pub attempt : Act S A → Act S (Result A)
  attempt m s = let (r, s') = m s in (ok r, s')

-- The outcome of a first part, handed on to what follows it.
abbrev pub after {ℓ} : {S A B : Type ℓ} → (A → Act S B) → Result A → Act S B
after f (ok a) s = f a s
after f (raised e) s = (raised e, s)

infixl 5 ◌>>=◌ ◌>>◌
-- To unfold `>>=` is to unfold every form of action.
unfoldable pub ◌>>=◌ {ℓ} : {S A B : Type ℓ} → Act S A → (A → Act S B) → Act S B
unfolding pure raise lift ask attempt
◌>>=◌ m f s = let (r, s') = m s in after f r s'

abbrev pub ◌>>◌ {ℓ} : {S A B : Type ℓ} → Act S A → Act S B → Act S B
m >> k = m >>= λ _. k
