-- ===== src/Oracle/Difference.antt =====
-- `first_diff_at` of the oracle mirror: what the position that it gives means.
use lean_rust_wasm.Prelude.{
  subst, Bool-cases, inl, inr, ℕ, suc, ◌+◌, ◌≡◌, ◌≢◌, refl, List, [], ◌∷◌, take, none, some, ◌==◌,
  arith,
}
use lean_rust_wasm.Oracle.{first_diff_from, first_diff_at}

from_none : (a b : List ℕ) (i : ℕ) → first_diff_from a b i ≡ none → a ≡ b
unfolding first_diff_from
from_none [] [] i h = refl
from_none [] (y ∷ ys) i h = cc
from_none (x ∷ xs) [] i h = cc
from_none (x ∷ xs) (y ∷ ys) i h = ground (arith, from_none xs ys (i + 1))

-- Texts with no first difference are equal.
pub first_diff_at-none : (a b : List ℕ) → first_diff_at a b ≡ none → a ≡ b
unfolding first_diff_at
first_diff_at-none a b h = from_none a b 0 h

-- The texts agree before position `k`, and no longer behind it.
abbrev pub DifferAt : ℕ → List ℕ → List ℕ → Type 0
DifferAt k a b = (take k a ≡ take k b) × (take (suc k) a ≢ take (suc k) b)

from_some :
    (a b : List ℕ) (i n : ℕ)
    → first_diff_from a b i ≡ some n
    → (k : ℕ) × (n ≡ i + k) × DifferAt k a b
unfolding first_diff_from
from_some [] [] i n h = cc
from_some [] (y ∷ ys) i n h = (0, ground arith, (refl, λ e. cc))
from_some (x ∷ xs) [] i n h = (0, ground arith, (refl, λ e. cc))
from_some (x ∷ xs) (y ∷ ys) i n h = elim (Bool-cases (x == y)) [
  | inl same ↦
      let heads : x ≡ y = ground arith in
      let (k, at, (before, behind)) = from_some xs ys (i + 1) n (ground arith) in
      (suc k, omega arith, (cc (heads, before), λ e. behind (cc e)))
  | inr apart ↦ (0, ground arith, (refl, λ e. let equal : x ≡ y = cc e in ground arith))
]

-- The position of the first difference: the texts agree up to it, and not one character further.
pub first_diff_at-some : (a b : List ℕ) (n : ℕ) → first_diff_at a b ≡ some n → DifferAt n a b
unfolding first_diff_at
first_diff_at-some a b n h =
    let (k, at, d) = from_some a b 0 n h in subst (λ j. DifferAt j a b) (omega arith) d
