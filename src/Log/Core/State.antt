-- ===== src/Log/Core/State.antt =====
-- The materialized states of log.rs, and what `append` computes before it writes.
pub mod History
use lean_rust_wasm.Prelude.{
  ℕ, ◌≡◌, refl, sym, ap, subst, ◌∙◌, List, [], ◌∷◌, ◌++◌, Bool, true, false, Bool-cases, inl, inr,
  Option, none, some, Result, ok, err, arith, if◌then◌else◌,
}
use lean_rust_wasm.Prelude.BTreeMap
use lean_rust_wasm.Prelude.BTreeMap.{BTreeMap, Key, same_key, IsSorted}
use lean_rust_wasm.Prelude.BTreeMap.Laws.{get-insert, insert-IsSorted, same_key→eq}
use lean_rust_wasm.Row.{Schema, Row}
use lean_rust_wasm.Delta
use lean_rust_wasm.Delta.{Change, Table, patch}
use lean_rust_wasm.Delta.Keys.{ChangeHas}
use lean_rust_wasm.Delta.Tables.{IsValid, empty-IsValid, patch-IsValid}
use lean_rust_wasm.Log.Schemas
use lean_rust_wasm.Log.Schemas.{SchemaSet}
use lean_rust_wasm.Log.Entry.{DeltaEntry}
use lean_rust_wasm.Log.Entry.RoundTrip.{EntryHas}
use lean_rust_wasm.Log.Core.{States, table_or_new, patch_state, row_before, rebuild_entry, rebuild}

-- Every table belongs to a registered schema, and is valid for it.
pub record StatesValid (ss : SchemaSet) (states : States) : Type 0 where
  pub sorted : IsSorted states
  pub each :
      (n : Key) (t : Table) (s : Schema)
      → BTreeMap.get n states ≡ some t
      → Schemas.get ss n ≡ some s
      → IsValid s t

pub no_states-StatesValid : (ss : SchemaSet) → StatesValid ss []
unfolding BTreeMap.get
no_states-StatesValid ss = record { sorted = tt; each = λ n t s e f. cc }

pub table_or_new-IsValid :
    (ss : SchemaSet) (states : States) (n : Key) (s : Schema)
    → StatesValid ss states
    → Schemas.get ss n ≡ some s
    → IsValid s (table_or_new states n)
unfolding table_or_new
table_or_new-IsValid ss states n s v f = go (BTreeMap.get n states) refl
  where
    go :
        (o : Option Table)
        → BTreeMap.get n states ≡ o
        → IsValid s (elim o [ none ↦ Delta.empty | some t ↦ t ])
    go none e = empty-IsValid s
    go (some t) e = v.each n t s e f

-- A patch of one table changes that table, and no other.
pub table_or_new-patch_state :
    (states : States) (n m : Key) (s : Schema) (c : Change)
    → IsSorted states
    → table_or_new (patch_state states n s c) m
      ≡ (if same_key m n then patch s (table_or_new states n) c else table_or_new states m)
unfolding patch_state table_or_new
table_or_new-patch_state states n m s c sorted =
    ground (arith, get-insert n m (patch s (table_or_new states n) c) states sorted)

pub patch_state-StatesValid :
    (ss : SchemaSet) (states : States) (n : Key) (s : Schema) (c : Change)
    → StatesValid ss states
    → Schemas.get ss n ≡ some s
    → ChangeHas s c
    → StatesValid ss (patch_state states n s c)
unfolding patch_state
patch_state-StatesValid ss states n s c v f h = record {
  sorted = insert-IsSorted n new states v.sorted;
  each = at;
}
  where
    new : Table
    new = patch s (table_or_new states n) c

    at :
        (m : Key) (t : Table) (q : Schema)
        → BTreeMap.get m (BTreeMap.insert n new states) ≡ some t
        → Schemas.get ss m ≡ some q
        → IsValid q t
    at m t q e g = elim (Bool-cases (same_key m n)) [
      | inl hit ↦
          let one : new ≡ t = ground (arith, get-insert n m new states v.sorted) in
          let schema : s ≡ q = cc (f, g, ap (Schemas.get ss) (same_key→eq m n hit)) in
          subst (λ r. IsValid r t) schema
            (subst (IsValid s) one (patch-IsValid s _ c (table_or_new-IsValid ss states n s v f) h))
      | inr miss ↦ v.each m t q (ground (arith, get-insert n m new states v.sorted)) g
    ]

pub row_before-eq :
    (states : States) (n k : Key) → row_before states n k ≡ Delta.get (table_or_new states n) k
unfolding row_before table_or_new Delta.get BTreeMap.get
row_before-eq states n k = ground arith

pub rebuild_entry-eq :
    (ss : SchemaSet) (states : States) (e : DeltaEntry) (s : Schema)
    → Schemas.get ss e.table ≡ some s
    → rebuild_entry ss states e ≡ patch_state states e.table s e.change
unfolding rebuild_entry
rebuild_entry-eq ss states e s f = ground (arith, f)

pub rebuild_entry_stray :
    (ss : SchemaSet) (states : States) (e : DeltaEntry)
    → Schemas.get ss e.table ≡ none
    → rebuild_entry ss states e ≡ states
unfolding rebuild_entry
rebuild_entry_stray ss states e f = ground (arith, f)

pub rebuild-append :
    (ss : SchemaSet) (states : States) (es : List DeltaEntry) (e : DeltaEntry)
    → rebuild ss states (es ++ (e ∷ [])) ≡ rebuild_entry ss (rebuild ss states es) e
unfolding rebuild
rebuild-append ss states [] e = refl
rebuild-append ss states (d ∷ es) e = rebuild-append ss (rebuild_entry ss states d) es e
