-- ===== src/Prelude/Results.antt =====
-- Fallible results, `Result<A, E>`, and their chaining by `?`.
use mathlib.Core.Path.{◌≡◌, refl, subst}
use mathlib.Core.Option.{Option, none, some}

pub data Result {ℓ κ} (Fail : Type ℓ) (Done : Type κ) : Type (ℓ ⊔ κ) where
  err : Fail → Result Fail Done
  ok : Done → Result Fail Done

infixl 5 ◌>>=◌
abbrev pub ◌>>=◌ {ℓ κ μ} :
    {E : Type ℓ} {A : Type κ} {B : Type μ} → Result E A → (A → Result E B) → Result E B
err why >>= next = err why
ok value >>= next = next value

module _ {ℓ κ} {E : Type ℓ} {A : Type κ} where
  -- `Result::ok`
  abbrev pub to_option : Result E A → Option A
  to_option (ok a) = some a
  to_option (err e) = none

  -- `Option::ok_or`
  abbrev pub ok_or : Option A → E → Result E A
  ok_or none e = err e
  ok_or (some a) e = ok a

module _ {ℓ κ μ} {E : Type ℓ} {A : Type κ} {B : Type μ} where
  -- A chain that succeeds did so in its first part, and then in its second.
  pub >>=-eq-ok :
      (first : Result E A) (next : A → Result E B) {done : B}
      → first >>= next ≡ ok done
      → (middle : A) × (first ≡ ok middle) × (next middle ≡ ok done)
  >>=-eq-ok (err why) next fine = cc
  >>=-eq-ok (ok middle) next fine = (middle, refl, fine)

module _ {ℓ κ ν} {E : Type ℓ} {A : Type κ} where
  -- If the computation succeeds, then with a result that has the property.
  abbrev pub Ensures : (A → Type ν) → Result E A → Type ν
  Ensures P (err why) = Unit {ν}
  Ensures P (ok a) = P a

  pub Ensures-ok : (P : A → Type ν) (r : Result E A) (a : A) → Ensures P r → r ≡ ok a → P a
  Ensures-ok P r a h e = subst (Ensures P) e h

module _ {ℓ κ μ ν ξ} {E : Type ℓ} {A : Type κ} {B : Type μ} where
  pub Ensures->>= :
      (Q : A → Type ν) (P : B → Type ξ) (first : Result E A) (next : A → Result E B)
      → Ensures Q first
      → ((a : A) → Q a → Ensures P (next a))
      → Ensures P (first >>= next)
  Ensures->>= Q P (err why) next h later = tt
  Ensures->>= Q P (ok a) next h later = later a h

module _ {ℓ κ μ ξ} {E : Type ℓ} {A : Type κ} {B : Type μ} where
  -- Whatever the first part's result is.
  pub Ensures-anyway :
      (P : B → Type ξ) (first : Result E A) (next : A → Result E B)
      → ((a : A) → Ensures P (next a))
      → Ensures P (first >>= next)
  Ensures-anyway P (err why) next later = tt
  Ensures-anyway P (ok a) next later = later a
