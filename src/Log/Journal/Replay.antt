-- ===== src/Log/Journal/Replay.antt =====
-- `state_at` of log.rs, and how prefix replay agrees with the states that are rebuilt on open.
use lean_rust_wasm.Prelude.{
  ℕ, zero, suc, ◌≡◌, ◌≤◌, refl, sym, ap, subst, ◌∙◌, List, [], ◌∷◌, ◌++◌, length, drop, take, Bool,
  true, false, Bool-cases, ◌⊎◌, inl, inr, All, Option, none, some, Result, ok, err, arith,
  append-nil, append_assoc, take-drop, drop-min, if◌then◌else◌,
}
use lean_rust_wasm.Prelude.BTreeMap
use lean_rust_wasm.Prelude.BTreeMap.{Key, same_key, IsSorted}
use lean_rust_wasm.Prelude.BTreeMap.Order.{lex-gt_of_lt, lex-lt_of_gt, eq_of_lex}
use lean_rust_wasm.Prelude.BTreeMap.Laws.{same_key→eq, insert-IsSorted}
use lean_rust_wasm.Row.{Schema}
use lean_rust_wasm.Delta.{patch}
use lean_rust_wasm.Log.Schemas
use lean_rust_wasm.Log.Schemas.{SchemaSet}
use lean_rust_wasm.Log.Entry.{DeltaEntry}
use lean_rust_wasm.Log.Core.{States, table_or_new, patch_state, rebuild_entry, rebuild}
use lean_rust_wasm.Log.Core.State.{rebuild_entry_stray, rebuild_entry-eq, table_or_new-patch_state}
use lean_rust_wasm.Log.Core.State.History.{History}
use lean_rust_wasm.Log.Journal.{DeltaLog, replay, state_at}

same_key_sym : (a b : Key) → same_key a b ≡ same_key b a
same_key_sym a b = ground (arith, lex-gt_of_lt a b, lex-lt_of_gt a b, eq_of_lex a b, eq_of_lex b a)

-- A table's schema is missing or given, and so is what its entry leaves.
rebuild_entry_cases :
    (ss : SchemaSet) (states : States) (e : DeltaEntry)
    → (rebuild_entry ss states e ≡ states)
      ⊎ ((t : Schema) × (rebuild_entry ss states e ≡ patch_state states e.table t e.change))
rebuild_entry_cases ss states e = go (Schemas.get ss e.table) refl
  where
    go :
        (o : Option Schema)
        → Schemas.get ss e.table ≡ o
        → (rebuild_entry ss states e ≡ states)
          ⊎ ((t : Schema) × (rebuild_entry ss states e ≡ patch_state states e.table t e.change))
    go none f = inl (rebuild_entry_stray ss states e f)
    go (some t) f = inr (t, rebuild_entry-eq ss states e t f)

-- An entry changes its own table only.
rebuild_entry_other :
    (ss : SchemaSet) (states : States) (e : DeltaEntry) (m : Key)
    → IsSorted states
    → same_key m e.table ≡ false
    → table_or_new (rebuild_entry ss states e) m ≡ table_or_new states m
rebuild_entry_other ss states e m sorted miss = elim (rebuild_entry_cases ss states e) [
  | inl same ↦ ap (λ st. table_or_new st m) same
  | inr (t, patched) ↦
      ap (λ st. table_or_new st m) patched
      ∙ table_or_new-patch_state states e.table m t e.change sorted
      ∙ rw miss refl
]

pub rebuild_entry-table :
    (ss : SchemaSet) (states : States) (e : DeltaEntry) (m : Key) (s : Schema)
    → IsSorted states
    → Schemas.get ss m ≡ some s
    → table_or_new (rebuild_entry ss states e) m ≡ (
        if same_key e.table m
        then patch s (table_or_new states m) e.change
        else table_or_new states m)
rebuild_entry-table ss states e m s sorted f = elim (Bool-cases (same_key m e.table)) [
  | inl hit ↦
      let one : m ≡ e.table = same_key→eq m e.table hit in
      let found : Schemas.get ss e.table ≡ some s = cc (f, ap (Schemas.get ss) one) in
      ap (λ st. table_or_new st m) (rebuild_entry-eq ss states e s found)
      ∙ table_or_new-patch_state states e.table m s e.change sorted
      ∙ rw (same_key_sym e.table m) (rw (hit, one) refl)
  | inr miss ↦
      rebuild_entry_other ss states e m sorted miss ∙ rw (same_key_sym e.table m) (rw miss refl)
]

rebuild_entry-IsSorted :
    (ss : SchemaSet) (states : States) (e : DeltaEntry)
    → IsSorted states
    → IsSorted (rebuild_entry ss states e)
unfolding patch_state
rebuild_entry-IsSorted ss states e sorted = elim (rebuild_entry_cases ss states e) [
  | inl same ↦ subst IsSorted (sym same) sorted
  | inr (t, patched) ↦
      subst IsSorted (sym patched)
        (insert-IsSorted e.table (patch t (table_or_new states e.table) e.change) states sorted)
]

-- The states that any entries rebuild, on states in the order of the tables' names, hold for every
-- registered table the replay of the entries of that table; entries of tables without a schema count
-- in neither.
pub rebuild-replay :
    (ss : SchemaSet) (states : States) (es : List DeltaEntry) (m : Key) (s : Schema)
    → IsSorted states
    → Schemas.get ss m ≡ some s
    → table_or_new (rebuild ss states es) m ≡ replay m s (table_or_new states m) es
unfolding rebuild replay
rebuild-replay ss states [] m s sorted f = refl
rebuild-replay ss states (e ∷ es) m s sorted f =
    rebuild-replay ss (rebuild_entry ss states e) es m s (rebuild_entry-IsSorted ss states e sorted)
      f
    ∙ ap (λ t. replay m s t es) (rebuild_entry-table ss states e m s sorted f)

pub rebuild_append :
    (ss : SchemaSet) (states : States) (xs ys : List DeltaEntry)
    → rebuild ss states (xs ++ ys) ≡ rebuild ss (rebuild ss states xs) ys
unfolding rebuild
rebuild_append ss states [] ys = refl
rebuild_append ss states (x ∷ xs) ys = rebuild_append ss (rebuild_entry ss states x) xs ys

pub History-split :
    (ss : SchemaSet) (states : States) (xs ys : List DeltaEntry)
    → History ss states (xs ++ ys)
    → History ss states xs × History ss (rebuild ss states xs) ys
unfolding rebuild
History-split ss states [] ys h = (tt, h)
History-split ss states (x ∷ xs) ys (h, hs) =
    let (front, back) = History-split ss (rebuild_entry ss states x) xs ys hs in ((h, front), back)

pub state_at_lem :
    {S : Type 0} (log : DeltaLog S) (seq : ℕ) (table : Key) (s : Schema)
    → Schemas.get log.schemas table ≡ some s
    → state_at log table seq
      ≡ some (table_or_new (rebuild log.schemas [] (take seq log.entries)) table)
unfolding state_at table_or_new lean_rust_wasm.Prelude.BTreeMap.get
state_at_lem log seq table s f =
    rw (f, state_at)
      (ap some (sym (rebuild-replay log.schemas [] (take seq log.entries) table s tt f)))
