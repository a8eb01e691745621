-- ===== src/Prelude/BTreeMap.antt =====
-- `BTreeMap` with byte strings or texts for keys: the list of its entries, ascending by key. A text
-- compares by its code points, which is also the order of its UTF-8 bytes.
pub mod Order
pub mod Laws
use Prim.Native.Nat.{ℕ, compare, Ordering, lt, eq, gt}
use mathlib.Core.Path.{◌≡◌}
use mathlib.Core.Bool.{Bool, true, false}
use mathlib.Core.Option.{Option, none, some}
use mathlib.Core.List.{List, [], ◌∷◌, map}
use lean_rust_wasm.Prelude.Lists.{All}

abbrev pub Key : Type 0
Key = List ℕ

unfoldable pub lex : Key → Key → Ordering
lex [] [] = eq
lex [] (y ∷ ys) = lt
lex (x ∷ xs) [] = gt
lex (x ∷ xs) (y ∷ ys) = elim (compare x y) [ lt ↦ lt | eq ↦ lex xs ys | gt ↦ gt ]

abbrev pub same_key : Key → Key → Bool
same_key a b = elim (lex a b) [ eq ↦ true | _ ↦ false ]

abbrev pub BTreeMap {ℓ} : Type ℓ → Type ℓ
BTreeMap V = List (Key × V)

module _ {ℓ} {V : Type ℓ} where
  unfoldable pub get : Key → BTreeMap V → Option V
  get k [] = none
  get k ((j, v) ∷ m) = elim (lex k j) [ lt ↦ none | eq ↦ some v | gt ↦ get k m ]

  unfoldable pub insert : Key → V → BTreeMap V → BTreeMap V
  insert k v [] = (k, v) ∷ []
  insert k v ((j, w) ∷ m) = elim (lex k j) [
    | lt ↦ (k, v) ∷ (j, w) ∷ m
    | eq ↦ (k, v) ∷ m
    | gt ↦ (j, w) ∷ insert k v m
  ]

  unfoldable pub remove : Key → BTreeMap V → BTreeMap V
  remove k [] = []
  remove k ((j, w) ∷ m) = elim (lex k j) [ lt ↦ (j, w) ∷ m | eq ↦ m | gt ↦ (j, w) ∷ remove k m ]

  unfoldable pub values : BTreeMap V → List V
  values [] = []
  values ((j, w) ∷ m) = w ∷ values m

  -- Every key of `m` stands above `k`.
  abbrev pub Above : Key → BTreeMap V → Type 0
  Above k [] = Unit
  Above k ((j, w) ∷ m) = (lex k j ≡ lt) × Above k m

  abbrev pub IsSorted : BTreeMap V → Type 0
  IsSorted [] = Unit
  IsSorted ((k, v) ∷ m) = Above k m × IsSorted m
