-- ===== src/Delta/Tables.antt =====
-- The invariant of a materialized table of delta.rs, and what `patch` does to its entries.
use lean_rust_wasm.Prelude.{
  ◌≡◌, subst, Bool-cases, inl, inr, Option, none, some, arith, if◌then◌else◌,
}
use lean_rust_wasm.Prelude.BTreeMap
use lean_rust_wasm.Prelude.BTreeMap.{Key, BTreeMap, same_key, IsSorted}
use lean_rust_wasm.Prelude.BTreeMap.Laws.{
  get-insert, get-remove, insert-IsSorted, remove-IsSorted, same_key→eq,
}
use lean_rust_wasm.Row.{Schema, Row, row_key_bytes}
use lean_rust_wasm.Row.RoundTrip.{RowHas}
use lean_rust_wasm.Delta.{Change, insert, update, remove, Table, empty, get, key_bytes, patch}
use lean_rust_wasm.Delta.Keys.{ChangeHas, key_bytes_total}

-- The rows stand in key order, each under its own key, and each has the types of the schema.
pub record IsValid (s : Schema) (t : Table) : Type 0 where
  pub sorted : IsSorted t.rows
  pub keyed : (k : Key) (r : Row) → get t k ≡ some r → row_key_bytes s r ≡ some k
  pub typed : (k : Key) (r : Row) → get t k ≡ some r → RowHas s r

pub empty-IsValid : (s : Schema) → IsValid s empty
unfolding get BTreeMap.get
empty-IsValid s = record { sorted = tt; keyed = λ k r e. cc; typed = λ k r e. cc }

-- The row that a change leaves at its key.
abbrev pub after : Change → Option Row
after (insert r) = some r
after (update r) = some r
after (remove k) = none

-- `patch` replaces or deletes the row at the change's key, and leaves every other key alone.
pub get-patch :
    (s : Schema) (t : Table) (c : Change) (k j : Key)
    → IsValid s t
    → key_bytes s c ≡ some k
    → get (patch s t c) j ≡ (if same_key j k then after c else get t j)
unfolding get patch key_bytes
get-patch s t (insert r) k j v e = ground (arith, get-insert k j r t.rows v.sorted)
get-patch s t (update r) k j v e = ground (arith, get-insert k j r t.rows v.sorted)
get-patch s t (remove x) k j v e = ground (arith, get-remove k j t.rows v.sorted)

patch-IsSorted :
    (s : Schema) (t : Table) (c : Change) (k : Key)
    → IsValid s t
    → key_bytes s c ≡ some k
    → IsSorted (patch s t c).rows
unfolding patch key_bytes
patch-IsSorted s t (insert r) k v e = rw e (insert-IsSorted k r t.rows v.sorted)
patch-IsSorted s t (update r) k v e = rw e (insert-IsSorted k r t.rows v.sorted)
patch-IsSorted s t (remove x) k v e = rw e (remove-IsSorted k t.rows v.sorted)

after-keyed :
    (s : Schema) (c : Change) (k : Key) (r : Row)
    → key_bytes s c ≡ some k
    → after c ≡ some r
    → row_key_bytes s r ≡ some k
unfolding key_bytes
after-keyed s (insert q) k r e h = cc
after-keyed s (update q) k r e h = cc
after-keyed s (remove x) k r e h = cc

after-typed : (s : Schema) (c : Change) (r : Row) → ChangeHas s c → after c ≡ some r → RowHas s r
after-typed s (insert q) r h e = let same : q ≡ r = cc in subst (RowHas s) same h.0
after-typed s (update q) r h e = let same : q ≡ r = cc in subst (RowHas s) same h.0
after-typed s (remove x) r h e = cc

module _ (s : Schema) (t : Table) (c : Change) (k : Key) (v : IsValid s t) (h : ChangeHas s c)
    (e : key_bytes s c ≡ some k) where
  patched_row :
      (j : Key) (r : Row) → get (patch s t c) j ≡ some r → (row_key_bytes s r ≡ some j) × RowHas s r
  patched_row j r g = elim (Bool-cases (same_key j k)) [
    | inl hit ↦
        let left : after c ≡ some r = ground (arith, get-patch s t c k j v e) in
        (rw (same_key→eq j k hit) (after-keyed s c k r e left), after-typed s c r h left)
    | inr miss ↦
        let left : get t j ≡ some r = ground (arith, get-patch s t c k j v e) in
        (v.keyed j r left, v.typed j r left)
  ]

-- Every admitted change keeps the invariant of the table.
pub patch-IsValid :
    (s : Schema) (t : Table) (c : Change) → IsValid s t → ChangeHas s c → IsValid s (patch s t c)
patch-IsValid s t c v h =
    let (k, e) = key_bytes_total s c h in
    record {
      sorted = patch-IsSorted s t c k v e;
      keyed = λ j r g. (patched_row s t c k v h e j r g).0;
      typed = λ j r g. (patched_row s t c k v h e j r g).1;
    }
