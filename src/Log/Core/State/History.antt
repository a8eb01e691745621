-- ===== src/Log/Core/State/History.antt =====
-- The entries of a log of log.rs, each computed against the states before it, and `append` before
-- its write: `prepare` gives such an entry.
use lean_rust_wasm.Prelude.{
  ℕ, ◌≡◌, refl, ap, List, [], ◌∷◌, ◌++◌, Bool, true, false, some, ok, arith,
}
use lean_rust_wasm.Prelude.BTreeMap.{Key}
use lean_rust_wasm.Value.HasTy.{matches_of_HasTy}
use lean_rust_wasm.Row.{Schema}
use lean_rust_wasm.Row.RoundTrip.{check_of_RowHas}
use lean_rust_wasm.Delta.{Change, insert, update, remove, patch}
use lean_rust_wasm.Delta.Keys.{ChangeHas, key_bytes_total}
use lean_rust_wasm.Delta.Inverse.{patch-invert}
use lean_rust_wasm.Log.Schemas
use lean_rust_wasm.Log.Schemas.{SchemaSet}
use lean_rust_wasm.Log.Entry.{DeltaEntry, enc_entry_payload}
use lean_rust_wasm.Log.Entry.RoundTrip.{enc_entry_payload-eq}
use lean_rust_wasm.Log.Core.{
  States, table_or_new, rebuild_entry, rebuild, validate, prepare, payload_or,
}
use lean_rust_wasm.Log.Core.State.{
  StatesValid, table_or_new-IsValid, patch_state-StatesValid, row_before-eq, rebuild_entry-eq,
}
use lean_rust_wasm.Log.Core.Scanning.{payload_of}

-- An entry over given states: a registered table, admitted changes, and an inverse that undoes the
-- change of its table.
pub record Entered (ss : SchemaSet) (states : States) (e : DeltaEntry) : Type 0 where
  pub schema : Schema
  pub found : Schemas.get ss e.table ≡ some schema
  pub change : ChangeHas schema e.change
  pub inverse : ChangeHas schema e.inverse
  pub undone :
      patch schema (patch schema (table_or_new states e.table) e.change) e.inverse
      ≡ table_or_new states e.table

-- Each entry of a log, over the states that the entries before it leave.
abbrev pub History : SchemaSet → States → List DeltaEntry → Type 0
History ss states [] = Unit
History ss states (e ∷ es) = Entered ss states e × History ss (rebuild_entry ss states e) es

pub History-append :
    (ss : SchemaSet) (states : States) (es : List DeltaEntry) (e : DeltaEntry)
    → History ss states es
    → Entered ss (rebuild ss states es) e
    → History ss states (es ++ (e ∷ []))
unfolding rebuild
History-append ss states [] e h n = (n, tt)
History-append ss states (d ∷ es) e (h, hs) n =
    (h, History-append ss (rebuild_entry ss states d) es e hs n)

pub rebuild_entry-StatesValid :
    (ss : SchemaSet) (states : States) (e : DeltaEntry)
    → StatesValid ss states
    → Entered ss states e
    → StatesValid ss (rebuild_entry ss states e)
rebuild_entry-StatesValid ss states e v h =
    rw (rebuild_entry-eq ss states e h.schema h.found)
      (patch_state-StatesValid ss states e.table h.schema e.change v h.found h.change)

pub rebuild-StatesValid :
    (ss : SchemaSet) (states : States) (es : List DeltaEntry)
    → StatesValid ss states
    → History ss states es
    → StatesValid ss (rebuild ss states es)
unfolding rebuild
rebuild-StatesValid ss states [] v h = v
rebuild-StatesValid ss states (e ∷ es) v (h, hs) =
    rebuild-StatesValid ss (rebuild_entry ss states e) es
      (rebuild_entry-StatesValid ss states e v h) hs

-- Every admitted change passes `validate`.
pub validate_ok :
    (table : Key) (s : Schema) (c : Change) → ChangeHas s c → validate table s c ≡ ok tt
unfolding validate
validate_ok table s (insert r) (h, (f, hf)) = ground (arith, hf, check_of_RowHas s r h)
validate_ok table s (update r) (h, (f, hf)) = ground (arith, hf, check_of_RowHas s r h)
validate_ok table s (remove k) (f, hf, hk) = ground (arith, hf, matches_of_HasTy hk)

payload_or_written : (table : Key) (p : Bool × List ℕ) → p.0 ≡ true → payload_or table p ≡ ok p.1
unfolding payload_or
payload_or_written table (true, out) h = refl
payload_or_written table (false, out) h = cc

-- An admitted change of a registered table is never refused before the write: `append` computes an
-- entry over the current states, whose inverse undoes the change, and its payload.
pub prepare_ok :
    (ss : SchemaSet) (states : States) (table : Key) (s : Schema) (c : Change)
    → StatesValid ss states
    → Schemas.get ss table ≡ some s
    → ChangeHas s c
    → (inv : Change) × (prepare ss states table c
        ≡ ok (
          s,
          record { table = table; change = c; inverse = inv },
          payload_of ss (record { table = table; change = c; inverse = inv }),
        ))
      × Entered ss states (record { table = table; change = c; inverse = inv })
unfolding prepare
prepare_ok ss states table s c v f h =
    let (k, hk) = key_bytes_total s c h in
    let (inv, hi, ci, back) =
      patch-invert s (table_or_new states table) c k (table_or_new-IsValid ss states table s v f) h
        hk in
    let e : DeltaEntry = record { table = table; change = c; inverse = inv } in
    (
      inv,
      rw (f, validate_ok table s c h, hk, row_before-eq states table k, hi)
          (rw
            (payload_or_written table (enc_entry_payload ss e)
              (ap (λ (p : Bool × List ℕ). p.0) (enc_entry_payload-eq ss e s f h ci)))
            refl),
      record { schema = s; found = f; change = h; inverse = ci; undone = back },
    )
