-- ===== src/Prelude/BTreeMap/Laws.antt =====
-- The laws of the sorted map, and its extensionality: two maps with the same entries are equal.
use Prim.Native.Nat.{lt, eq}
use mathlib.Core.Path.{◌≡◌, refl, ap, ap₂}
use mathlib.Core.Bool.{true}
use mathlib.Core.Option.{none, some}
use mathlib.Core.List.{[], ◌∷◌}
use native.Mathlib.Omega.{arith}
use lean_rust_wasm.Prelude.Tests.{if◌then◌else◌}
use lean_rust_wasm.Prelude.BTreeMap.{
  Key, lex, same_key, BTreeMap, get, insert, remove, Above, IsSorted,
}
use lean_rust_wasm.Prelude.BTreeMap.Order.{
  lex_refl, eq_of_lex, lex-gt_of_lt, lex-lt_of_gt, lex_trans,
}

pub same_key→eq : (a b : Key) → same_key a b ≡ true → a ≡ b
same_key→eq a b h = eq_of_lex a b (ground arith)

pub same_key_refl : (a : Key) → same_key a a ≡ true
same_key_refl a = ground (arith, lex_refl a)

module _ {ℓ} {V : Type ℓ} where
  Above-trans : (a b : Key) (m : BTreeMap V) → lex a b ≡ lt → Above b m → Above a m
  Above-trans a b [] h k = tt
  Above-trans a b ((j, w) ∷ m) h (k, ks) = (lex_trans a b j h k, Above-trans a b m h ks)

  -- A key at or below all those of the map is absent.
  get-Above : (k : Key) (m : BTreeMap V) → Above k m → get k m ≡ none
  unfolding get
  get-Above k [] h = refl
  get-Above k ((j, w) ∷ m) (h, hs) = ground arith

  absent_below : (j i : Key) (m : BTreeMap V) → Above i m → lex j i ≡ lt → get j m ≡ none
  absent_below j i m a h = get-Above j m (Above-trans j i m h a)

  absent_at : (j i : Key) (m : BTreeMap V) → Above i m → lex j i ≡ eq → get j m ≡ none
  absent_at j i m a h = rw (eq_of_lex j i h) (get-Above i m a)

  pub get-insert :
      (k j : Key) (v : V) (m : BTreeMap V)
      → IsSorted m
      → get j (insert k v m) ≡ (if same_key j k then some v else get j m)
  unfolding get insert
  get-insert k j v [] s = ground arith
  get-insert k j v ((i, w) ∷ m) (a, s) = ground (
    arith,
    get-insert k j v m s,
    eq_of_lex k i,
    eq_of_lex j i,
    eq_of_lex j k,
    lex-gt_of_lt k i,
    lex-lt_of_gt k i,
    lex-gt_of_lt j k,
    lex-lt_of_gt j k,
    lex_trans j k i,
    lex_trans k i j,
    lex_refl i,
  )

  pub get-remove :
      (k j : Key) (m : BTreeMap V)
      → IsSorted m
      → get j (remove k m) ≡ (if same_key j k then none else get j m)
  unfolding get remove
  get-remove k j [] s = ground arith
  get-remove k j ((i, w) ∷ m) (a, s) = ground (
    arith,
    get-remove k j m s,
    eq_of_lex k i,
    eq_of_lex j k,
    lex-gt_of_lt j k,
    lex-lt_of_gt j k,
    lex_trans j k i,
    lex_refl i,
    absent_below j i m a,
    absent_at j i m a,
  )

  insert-Above :
      (i k : Key) (v : V) (m : BTreeMap V) → lex i k ≡ lt → Above i m → Above i (insert k v m)
  unfolding insert
  insert-Above i k v [] h a = (h, tt)
  insert-Above i k v ((j, w) ∷ m) h (a, as') = ground (arith, insert-Above i k v m h as')

  Above-at : (k j : Key) (m : BTreeMap V) → lex k j ≡ eq → Above j m → Above k m
  Above-at k j m h a = rw (eq_of_lex k j h) a

  pub insert-IsSorted : (k : Key) (v : V) (m : BTreeMap V) → IsSorted m → IsSorted (insert k v m)
  unfolding insert
  insert-IsSorted k v [] s = (tt, tt)
  insert-IsSorted k v ((j, w) ∷ m) (a, s) = ground (
    arith,
    insert-IsSorted k v m s,
    lex-lt_of_gt k j,
    λ (h : lex j k ≡ lt). insert-Above j k v m h a,
    λ (h : lex k j ≡ lt). Above-trans k j m h a,
    λ (h : lex k j ≡ eq). Above-at k j m h a,
  )

  remove-Above : (i k : Key) (m : BTreeMap V) → Above i m → Above i (remove k m)
  unfolding remove
  remove-Above i k [] a = tt
  remove-Above i k ((j, w) ∷ m) (a, as') = ground (arith, remove-Above i k m as')

  pub remove-IsSorted : (k : Key) (m : BTreeMap V) → IsSorted m → IsSorted (remove k m)
  unfolding remove
  remove-IsSorted k [] s = tt
  remove-IsSorted k ((j, w) ∷ m) (a, s) =
      ground (arith, remove-IsSorted k m s, remove-Above j k m a)

  heads :
      (i j : Key) (v w : V) (m n : BTreeMap V)
      → ((k : Key) → get k ((i, v) ∷ m) ≡ get k ((j, w) ∷ n))
      → (i ≡ j) × (v ≡ w)
  unfolding get
  heads i j v w m n h =
      ground (arith, h i, h j, lex_refl i, lex_refl j, eq_of_lex i j, lex-lt_of_gt i j)

  tails :
      (i j : Key) (v w : V) (m n : BTreeMap V)
      → i ≡ j
      → Above i m
      → Above j n
      → ((k : Key) → get k ((i, v) ∷ m) ≡ get k ((j, w) ∷ n))
      → (k : Key) → get k m ≡ get k n
  unfolding get
  tails i j v w m n e a b h k = ground (
    arith,
    e,
    h k,
    absent_below k i m a,
    absent_at k i m a,
    absent_below k j n b,
    absent_at k j n b,
    ap (lex k) e,
  )

  -- Two sorted maps that answer every key alike are the same list.
  pub map_ext :
      (m n : BTreeMap V) → IsSorted m → IsSorted n → ((k : Key) → get k m ≡ get k n) → m ≡ n
  unfolding get
  map_ext [] [] s t h = refl
  map_ext [] ((j, w) ∷ n) s t h = ground (arith, h j, lex_refl j)
  map_ext ((i, v) ∷ m) [] s t h = ground (arith, h i, lex_refl i)
  map_ext ((i, v) ∷ m) ((j, w) ∷ n) s t h =
      let (same, value) = heads i j v w m n h in
      ap₂ (λ p q. p ∷ q) (ap₂ (λ (k : Key) (x : V). (k, x)) same value)
        (map_ext m n s.1 t.1 (tails i j v w m n same s.0 t.0 h))
