-- ===== src/Delta.antt =====
-- The change variant, the materialized table and the inverse of a change,
-- crates/wasm-delta/src/delta.rs.
pub mod Keys
pub mod Tables
pub mod Inverse
mod Runs
use mathlib.Core.Option
use lean_rust_wasm.Prelude.{ℕ, List, Bool, true, false, Option, none, some, if◌then◌else◌}
use lean_rust_wasm.Prelude.BTreeMap
use lean_rust_wasm.Prelude.BTreeMap.{BTreeMap}
use lean_rust_wasm.Value.{Value}
use lean_rust_wasm.Row.{Schema, Row, row_key, row_key_bytes, enc_key}

pub data Change : Type 0 where
  insert update : Row → Change
  remove : Value → Change

-- The wire tag, in the order of declaration.
unfoldable pub tag : Change → ℕ
tag (insert r) = 0
tag (update r) = 1
tag (remove k) = 2

abbrev written : Bool × List ℕ → Option (List ℕ)
written (done, out) = if done then some out else none

unfoldable pub key_bytes : Schema → Change → Option (List ℕ)
key_bytes s (insert r) = row_key_bytes s r
key_bytes s (update r) = row_key_bytes s r
key_bytes s (remove k) = written (enc_key s k)

pub record Table : Type 0 where
  pub rows : BTreeMap Row

abbrev pub empty : Table
empty = record { rows = List.[] }

unfoldable pub get : Table → List ℕ → Option Row
get t k = BTreeMap.get k t.rows

abbrev put_at : Table → Row → Option (List ℕ) → Table
put_at t r none = t
put_at t r (some k) = record { rows = BTreeMap.insert k r t.rows }

abbrev drop_at : Table → Option (List ℕ) → Table
drop_at t none = t
drop_at t (some k) = record { rows = BTreeMap.remove k t.rows }

unfoldable pub patch : Schema → Table → Change → Table
patch s t (insert r) = put_at t r (row_key_bytes s r)
patch s t (update r) = put_at t r (row_key_bytes s r)
patch s t (remove k) = drop_at t (key_bytes s (remove k))

-- The inverse before the last filter; `r.key()?` leaves early on a row with no values.
abbrev pub invert_row : Row → Option Row → Option Change
invert_row r none = elim (row_key r) [ none ↦ none | some key ↦ some (remove key) ]
invert_row r (some old) = some (update old)

abbrev pub invert_key : Value → Option Row → Option Change
invert_key k none = some (remove k)
invert_key k (some old) = some (insert old)

-- `.filter(|inv| inv.key_bytes(schema).is_some())`
abbrev pub keep_keyed : Schema → Option Change → Option Change
keep_keyed s none = none
keep_keyed s (some inv) = elim (key_bytes s inv) [ none ↦ none | some k ↦ some inv ]

unfoldable pub invert : Schema → Change → Option Row → Option Change
invert s (insert r) pre = keep_keyed s (invert_row r pre)
invert s (update r) pre = keep_keyed s (invert_row r pre)
invert s (remove k) pre = keep_keyed s (invert_key k pre)
