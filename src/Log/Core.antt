-- ===== src/Log/Core.antt =====
-- The parts of `DeltaLog` of log.rs that do not touch the backend: the scan of a journal, the
-- materialized states, validation, and what `append` computes before it writes.
pub mod Scanning
pub mod State
use Prim.Native.Nat.{min}
use mathlib.Core.Option
use mathlib.Core.List.{reverse, map}
use lean_rust_wasm.Prelude.{
  ℕ, zero, suc, ◌+◌, ◌-◌, List, [], ◌∷◌, ◌++◌, length, drop, take, Bool, true, false, Option, none,
  some, Result, ok, err, ◌>>=◌, ok_or, ltb, ◌==◌, if◌then◌else◌,
}
use lean_rust_wasm.Prelude.BTreeMap
use lean_rust_wasm.Prelude.BTreeMap.{BTreeMap, same_key}
use lean_rust_wasm.Codec.{DecFail, torn, EnvelopeRef, dec_envelope_prefix}
use lean_rust_wasm.Value.{value_ty_matches}
use lean_rust_wasm.Row.{Field, Schema, Row, schema_key, check}
use lean_rust_wasm.Delta
use lean_rust_wasm.Delta.{Change, insert, update, remove, Table, key_bytes, patch, invert}
use lean_rust_wasm.Log.Errors.{
  Reason, DeltaError, key_less, row_mismatch, remove_key_mismatch, no_key, not_invertible,
  not_encoded, malformed_header, undecodable_payload,
}
use lean_rust_wasm.Log.Schemas
use lean_rust_wasm.Log.Schemas.{SchemaSet, fingerprint}
use lean_rust_wasm.Log.Entry.{
  DeltaEntry, version, enc_entry_payload, dec_entry_payload, enc_record, ◌>>?◌,
}

-- The outcome of the scan that `open_with` makes: the end of the journal, a torn tail at an offset, or
-- an error. `stuck` is none of the source's: the fuel ran out.
pub data Scan : Type 0 where
  done : List DeltaEntry → Scan
  cut : ℕ → List DeltaEntry → Scan
  failed : DeltaError → Scan
  stuck : Scan

-- One round of the loop either leaves it or goes on at an offset.
pub data Round : Type 0 where
  stop : Scan → Round
  next : ℕ → List DeltaEntry → Round

unfoldable pub decoded : ℕ → List DeltaEntry → ℕ → Option DeltaEntry → Round
decoded offset entries len none = stop (failed (DeltaError.corrupt offset undecodable_payload))
decoded offset entries len (some e) = next (offset + len) (entries ++ (e ∷ []))

unfoldable pub scan_round : SchemaSet → ℕ → List DeltaEntry → Result DecFail EnvelopeRef → Round
scan_round ss offset entries (err DecFail.torn) = stop (cut offset entries)
scan_round ss offset entries (err DecFail.corrupt) =
    stop (failed (DeltaError.corrupt offset malformed_header))
scan_round ss offset entries (ok env) =
    if env.version == version
    then if env.fingerprint == fingerprint ss
      then decoded offset entries env.len (dec_entry_payload ss env.payload)
      else stop (failed (DeltaError.fingerprint_mismatch offset))
    else stop (failed (DeltaError.wrong_version offset env.version))

-- `while offset < bytes.len()`
unfoldable pub scan : SchemaSet → ℕ → List ℕ → ℕ → List DeltaEntry → Scan
scan ss zero bytes offset entries = if ltb offset (length bytes) then stuck else done entries
scan ss (suc fuel) bytes offset entries =
    let rest =
      elim (scan_round ss offset entries (dec_envelope_prefix (drop offset bytes))) as (λ _. Scan) [
        | stop r ↦ r
        | next offset' entries' ↦ scan ss fuel bytes offset' entries'
      ] in
    if ltb offset (length bytes) then rest else done entries

-- The states by table name, and `states.entry(table).or_insert_with(Table::new).patch(..)`.
abbrev pub States : Type 0
States = BTreeMap Table

unfoldable pub table_or_new : States → List ℕ → Table
table_or_new states name = elim (BTreeMap.get name states) [ none ↦ Delta.empty | some t ↦ t ]

unfoldable pub patch_state : States → List ℕ → Schema → Change → States
patch_state states name schema change =
    BTreeMap.insert name (patch schema (table_or_new states name) change) states

unfoldable pub rebuild_entry : SchemaSet → States → DeltaEntry → States
rebuild_entry ss states e = elim (Schemas.get ss e.table) [
  | none ↦ states
  | some s ↦ patch_state states e.table s e.change
]

unfoldable pub rebuild : SchemaSet → States → List DeltaEntry → States
rebuild ss states [] = states
rebuild ss states (e ∷ es) = rebuild ss (rebuild_entry ss states e) es

unfoldable pub validate : List ℕ → Schema → Change → Result DeltaError (Unit {0})
validate table s (insert r) = elim (schema_key s) [
  | none ↦ err (DeltaError.schema_mismatch table key_less)
  | some f ↦ if check s r.values then ok tt else err (DeltaError.schema_mismatch table row_mismatch)
]
validate table s (update r) = elim (schema_key s) [
  | none ↦ err (DeltaError.schema_mismatch table key_less)
  | some f ↦ if check s r.values then ok tt else err (DeltaError.schema_mismatch table row_mismatch)
]
validate table s (remove k) = elim (schema_key s) [
  | none ↦ err (DeltaError.schema_mismatch table key_less)
  | some f ↦
      if value_ty_matches f.ty k
      then ok tt
      else err (DeltaError.schema_mismatch table remove_key_mismatch)
]

-- `self.states.get(table).and_then(|t| t.get(&key))`
unfoldable pub row_before : States → List ℕ → List ℕ → Option Row
row_before states table key = BTreeMap.get table states >>? λ t. Delta.get t key

unfoldable pub payload_or : List ℕ → Bool × List ℕ → Result DeltaError (List ℕ)
payload_or table (true, out) = ok out
payload_or table (false, out) = err (DeltaError.schema_mismatch table not_encoded)

-- The part of `append` before the backend is called: the schema, the entry and its payload.
unfoldable pub prepare :
    SchemaSet → States → List ℕ → Change → Result DeltaError (Schema × DeltaEntry × List ℕ)
prepare ss states table change = do
  s ← ok_or (Schemas.get ss table) (DeltaError.unknown_table table)
  u ← validate table s change
  key ← ok_or (key_bytes s change) (DeltaError.schema_mismatch table no_key)
  inverse ←
      ok_or (invert s change (row_before states table key))
        (DeltaError.schema_mismatch table not_invertible)
  payload ←
      payload_or table
        (enc_entry_payload ss (record { table = table; change = change; inverse = inverse }))
  ok (s, record { table = table; change = change; inverse = inverse }, payload)
