-- ===== src/Common/Lists.antt =====
-- Lists: length over the native numbers, `any`, `all`, membership of a text, predicates.
use Prim.Native.Nat.{ℕ, zero, suc, ◌+◌, ◌≤◌}
use native.Mathlib.Omega.{arith}
use Prim.Native.String.{String}
use mathlib.Core.Bool.{Bool, true, false, ◌&&◌, ◌||◌}
use mathlib.Core.List.{List, [], ◌∷◌, ◌++◌}
use text.Mathlib.Text.{◌==◌}
use mathlib.Core.Path.{◌≡◌, refl, sym, ap, subst}
use mathlib.Core.Logic.{◌⊎◌, inl, inr}

module _ {ℓ} {A : Type ℓ} where
  abbrev pub length : List A → ℕ
  length [] = 0
  length (x ∷ xs) = suc (length xs)

  abbrev pub any : (A → Bool) → List A → Bool
  any p [] = false
  any p (x ∷ xs) = p x || any p xs

  abbrev pub all : (A → Bool) → List A → Bool
  all p [] = true
  all p (x ∷ xs) = p x && all p xs

  abbrev pub take : ℕ → List A → List A
  take zero xs = []
  take (suc n) [] = []
  take (suc n) (x ∷ xs) = x ∷ take n xs

-- `s in xs`
abbrev pub contains : List String → String → Bool
contains xs s = any (λ x. x == s) xs

abbrev pub All {ℓ κ} : {A : Type ℓ} → (A → Type κ) → List A → Type κ
All P [] = Unit
All P (x ∷ xs) = P x × All P xs

pub All-append {ℓ κ} :
    {A : Type ℓ} (P : A → Type κ) (xs ys : List A) → All P xs → All P ys → All P (xs ++ ys)
All-append P [] ys hx hy = hy
All-append P (x ∷ xs) ys hx hy = (hx.0, All-append P xs ys hx.1 hy)

-- Some element of a list has a property.
abbrev pub Some {ℓ} : {A : Type ℓ} → (A → Type 0) → List A → Type 0
Some P [] = ⊥
Some P (x ∷ xs) = P x ⊎ Some P xs

-- An element of a list that has a property is one of the list's.
pub every_own :
    {A : Type 0} (P : A → Type 0) (B : A → Type 0) (all : List A) (xs : List A)
    → ((x : A) → Some (λ y. y ≡ x) xs → Some (λ y. y ≡ x) all)
    → ((x : A) → Some (λ y. y ≡ x) all → P x → B x)
    → All (λ x. P x → B x) xs
every_own P B all [] within f = tt
every_own P B all (x ∷ xs) within f =
    (λ p. f x (within x (inl refl)) p, every_own P B all xs (λ y there. within y (inr there)) f)

pub some_of :
    {A : Type 0} (Q : A → Type 0) (x : A) (xs : List A) → Some (λ y. y ≡ x) xs → Q x → Some Q xs
some_of Q x [] none_there q = elim none_there [ ]
some_of Q x (y ∷ xs) (inl e) q = inl (subst Q (sym e) q)
some_of Q x (y ∷ xs) (inr there) q = inr (some_of Q x xs there q)

All-within :
    {A : Type 0} (all xs : List A)
    → ((x : A) → Some (λ y. y ≡ x) xs → Some (λ y. y ≡ x) all)
    → All (λ x. Some (λ y. y ≡ x) all) xs
All-within all [] f = tt
All-within all (x ∷ xs) f = (f x (inl refl), All-within all xs (λ y there. f y (inr there)))

pub every_self : {A : Type 0} (xs : List A) → All (λ x. Some (λ y. y ≡ x) xs) xs
every_self xs = All-within xs xs (λ x h. h)

pub Some-map :
    {A : Type 0} (P Q : A → Type 0) (xs : List A) → ((x : A) → P x → Q x) → Some P xs → Some Q xs
Some-map P Q [] f h = elim h [ ]
Some-map P Q (x ∷ xs) f (inl p) = inl (f x p)
Some-map P Q (x ∷ xs) f (inr h) = inr (Some-map P Q xs f h)

pub All-weaker :
    {A : Type 0} (P Q : A → Type 0) (xs : List A) → ((x : A) → P x → Q x) → All P xs → All Q xs
All-weaker P Q [] f h = tt
All-weaker P Q (x ∷ xs) f (p, h) = (f x p, All-weaker P Q xs f h)

pub All-take : {A : Type 0} (P : A → Type 0) (n : ℕ) (xs : List A) → All P xs → All P (take n xs)
All-take P zero xs h = tt
All-take P (suc n) [] h = tt
All-take P (suc n) (x ∷ xs) (p, h) = (p, All-take P n xs h)

pub length-take :
    {A : Type 0} (n : ℕ) (xs : List A) → (length (take n xs) ≤ n) × (length (take n xs) ≤ length xs)
length-take zero xs = (omega arith, omega arith)
length-take (suc n) [] = (omega arith, omega arith)
length-take (suc n) (x ∷ xs) = let (few, fewer) = length-take n xs in (omega arith, omega arith)

pub length-append : {A : Type 0} (xs ys : List A) → length (xs ++ ys) ≡ length xs + length ys
length-append [] ys = omega arith
length-append (x ∷ xs) ys = omega (arith, length-append xs ys)

pub append_append : {A : Type 0} (xs ys zs : List A) → (xs ++ ys) ++ zs ≡ xs ++ (ys ++ zs)
append_append [] ys zs = refl
append_append (x ∷ xs) ys zs = ap (λ l. x ∷ l) (append_append xs ys zs)
