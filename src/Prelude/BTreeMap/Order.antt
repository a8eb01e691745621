-- ===== src/Prelude/BTreeMap/Order.antt =====
-- The order of keys: total, and lexicographic.
use Prim.Native.Nat.{lt, eq, gt}
use mathlib.Core.Path.{◌≡◌, refl}
use mathlib.Core.List.{[], ◌∷◌}
use native.Mathlib.Omega.{arith}
use lean_rust_wasm.Prelude.BTreeMap.{Key, lex}

pub lex_refl : (a : Key) → lex a a ≡ eq
unfolding lex
lex_refl [] = refl
lex_refl (x ∷ xs) = ground (arith, lex_refl xs)

pub eq_of_lex : (a b : Key) → lex a b ≡ eq → a ≡ b
unfolding lex
eq_of_lex [] [] h = refl
eq_of_lex [] (y ∷ ys) h = cc
eq_of_lex (x ∷ xs) [] h = cc
eq_of_lex (x ∷ xs) (y ∷ ys) h = ground (arith, eq_of_lex xs ys)

pub lex-gt_of_lt : (a b : Key) → lex a b ≡ lt → lex b a ≡ gt
unfolding lex
lex-gt_of_lt [] [] h = cc
lex-gt_of_lt [] (y ∷ ys) h = refl
lex-gt_of_lt (x ∷ xs) [] h = cc
lex-gt_of_lt (x ∷ xs) (y ∷ ys) h = ground (arith, lex-gt_of_lt xs ys)

pub lex-lt_of_gt : (a b : Key) → lex a b ≡ gt → lex b a ≡ lt
unfolding lex
lex-lt_of_gt [] [] h = cc
lex-lt_of_gt [] (y ∷ ys) h = cc
lex-lt_of_gt (x ∷ xs) [] h = refl
lex-lt_of_gt (x ∷ xs) (y ∷ ys) h = ground (arith, lex-lt_of_gt xs ys)

pub lex_trans : (a b c : Key) → lex a b ≡ lt → lex b c ≡ lt → lex a c ≡ lt
unfolding lex
lex_trans [] [] c h k = cc
lex_trans [] (y ∷ ys) [] h k = cc
lex_trans [] (y ∷ ys) (z ∷ zs) h k = refl
lex_trans (x ∷ xs) [] c h k = cc
lex_trans (x ∷ xs) (y ∷ ys) [] h k = cc
lex_trans (x ∷ xs) (y ∷ ys) (z ∷ zs) h k = ground (arith, lex_trans xs ys zs)
