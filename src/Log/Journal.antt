-- ===== src/Log/Journal.antt =====
-- `DeltaLog` of log.rs over any backend: open, append, replay and rewind.
pub mod Open
pub mod Append
pub mod Replay
pub mod Rewind
pub mod Hole
mod Runs
use Prim.Native.Nat.{min}
use mathlib.Core.Option
use mathlib.Core.List.{reverse, map}
use lean_rust_wasm.Prelude.{
  ℕ, zero, suc, ◌+◌, ◌-◌, List, [], ◌∷◌, ◌++◌, length, drop, take, Bool, true, false, Option, none,
  some, Result, ok, err, ◌>>=◌, ok_or, ltb, ◌==◌, if◌then◌else◌,
}
use lean_rust_wasm.Prelude.BTreeMap
use lean_rust_wasm.Prelude.BTreeMap.{BTreeMap, same_key}
use lean_rust_wasm.Row.{Schema}
use lean_rust_wasm.Delta
use lean_rust_wasm.Delta.{Change, Table, patch}
use lean_rust_wasm.Log.Errors.{DeltaError}
use lean_rust_wasm.Log.Schemas
use lean_rust_wasm.Log.Schemas.{SchemaSet}
use lean_rust_wasm.Log.Entry.{DeltaEntry, enc_record}
use lean_rust_wasm.Log.Backend.{Backend}
use lean_rust_wasm.Log.Core.{
  Scan, done, cut, failed, stuck, scan, States, patch_state, rebuild, prepare,
}

pub record DeltaLog (S : Type 0) : Type 0 where
  pub backend : S
  pub schemas : SchemaSet
  pub entries : List DeltaEntry
  pub states : States

-- The log that `open_with` builds at its end, `rebuild_states` included.
abbrev pub opened : {S : Type 0} → S → SchemaSet → List DeltaEntry → DeltaLog S
opened sink ss entries = record {
  backend = sink;
  schemas = ss;
  entries = entries;
  states = rebuild ss [] entries;
}

-- The materialized state of a table, `state`.
unfoldable pub state : {S : Type 0} → DeltaLog S → List ℕ → Option Table
state log table = BTreeMap.get table log.states

-- The loop of `state_at`.
unfoldable pub replay : List ℕ → Schema → Table → List DeltaEntry → Table
replay table s t [] = t
replay table s t (e ∷ es) =
    replay table s (if same_key e.table table then patch s t e.change else t) es

unfoldable pub state_at : {S : Type 0} → DeltaLog S → List ℕ → ℕ → Option Table
state_at log table seq = elim (Schemas.get log.schemas table) [
  | none ↦ none
  | some s ↦ some (replay table s Delta.empty (take seq log.entries))
]

-- What `rewind_to` takes of an entry.
abbrev pub compensation : DeltaEntry → List ℕ × Change
compensation e = (e.table, e.inverse)

module _ (B : Backend) where
  -- What follows the scan; a torn tail is cut off at the offset that the scan reached.
  unfoldable pub after_scan :
      SchemaSet → B.Sink → Scan → Option (Result DeltaError (DeltaLog B.Sink))
  after_scan ss sink (done entries) = some (ok (opened sink ss entries))
  after_scan ss sink (cut offset entries) =
      let (r, sink') = B.truncate sink offset in some (r >>= λ _. ok (opened sink' ss entries))
  after_scan ss sink (failed e) = some (err e)
  after_scan ss sink stuck = none

  unfoldable pub scan_loaded :
      SchemaSet → Result DeltaError (List ℕ) × B.Sink → Option (Result DeltaError (DeltaLog B.Sink))
  scan_loaded ss (err e, sink) = some (err e)
  scan_loaded ss (ok bytes, sink) = after_scan ss sink (scan ss (length bytes) bytes 0 [])

  -- `none` stands for a scan out of fuel; a record takes at least a byte, so `bytes.len()` rounds do.
  unfoldable pub open_with : B.Sink → SchemaSet → Option (Result DeltaError (DeltaLog B.Sink))
  open_with sink ss = scan_loaded ss (B.load sink)

  unfoldable pub commit :
      DeltaLog B.Sink → Schema × DeltaEntry × List ℕ → Result DeltaError ℕ × DeltaLog B.Sink
  commit log (s, e, payload) =
      let (r, sink) = B.append log.backend (enc_record log.schemas payload) in
      elim r as (λ _. Result DeltaError ℕ × DeltaLog B.Sink) [
        | err x ↦ (err x, record log { backend = sink })
        | ok _ ↦ (
          ok (length log.entries),
          record log {
            backend = sink;
            states = patch_state log.states e.table s e.change;
            entries = log.entries ++ (e ∷ []);
          },
        )
      ]

  unfoldable pub append : DeltaLog B.Sink → List ℕ → Change → Result DeltaError ℕ × DeltaLog B.Sink
  append log table change =
      elim (prepare log.schemas log.states table change)
        as (λ _. Result DeltaError ℕ × DeltaLog B.Sink) [
          | err x ↦ (err x, log)
          | ok p ↦ commit log p
        ]

  -- `for (table, inverse) in compensations`, which leaves at the first failure.
  unfoldable pub compensate :
      DeltaLog B.Sink → List (List ℕ × Change) → Result DeltaError (Unit {0}) × DeltaLog B.Sink
  compensate log [] = (ok tt, log)
  compensate log ((table, inverse) ∷ rest) =
      let (r, log') = append log table inverse in
      elim r as (λ _. Result DeltaError (Unit {0}) × DeltaLog B.Sink) [
        | err x ↦ (err x, log')
        | ok _ ↦ compensate log' rest
      ]

  unfoldable pub rewind_to : DeltaLog B.Sink → ℕ → Result DeltaError (Unit {0}) × DeltaLog B.Sink
  rewind_to log seq =
      let start = min seq (length log.entries) in
      compensate log (map compensation (reverse (drop start log.entries)))
