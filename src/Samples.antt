-- ===== src/Samples.antt =====
-- Concrete data for the tests: a table of users with a u64 key and a flag, its rows, and changes.
use lean_rust_wasm.Prelude.{ℕ, ◌≡◌, refl, List, [], ◌∷◌, true, false, Option, some, arith}
use lean_rust_wasm.Value.{Ty, Value}
use lean_rust_wasm.Value.HasTy.{HasTy}
use lean_rust_wasm.Row.{Field, Schema, Row}
use lean_rust_wasm.Row.RoundTrip.{RowHas}
use lean_rust_wasm.Delta.{Change}
use lean_rust_wasm.Delta.Keys.{ChangeHas}
use lean_rust_wasm.Log.Schemas
use lean_rust_wasm.Log.Schemas.{SchemaSet}

abbrev pub id_field : Field
id_field = record { name = 105 ∷ 100 ∷ []; ty = Ty.u64 }

abbrev pub users : Schema
users = record { fields = id_field ∷ record { name = 111 ∷ 110 ∷ []; ty = Ty.bool } ∷ [] }

abbrev pub table_name : List ℕ
table_name = 116 ∷ []

abbrev pub schema_set : SchemaSet
schema_set = record { tables = (table_name, users) ∷ [] }

abbrev pub user_on : Row
user_on = record { values = Value.u64 7 ∷ Value.bool true ∷ [] }

abbrev pub user_off : Row
user_off = record { values = Value.u64 7 ∷ Value.bool false ∷ [] }

abbrev pub insert_on : Change
insert_on = Change.insert user_on

pub user_on-RowHas : RowHas users user_on
user_on-RowHas = (HasTy.u64 7 (omega arith), (HasTy.bool true, tt))

pub user_off-RowHas : RowHas users user_off
user_off-RowHas = (HasTy.u64 7 (omega arith), (HasTy.bool false, tt))

pub insert_on-ChangeHas : ChangeHas users insert_on
insert_on-ChangeHas = (user_on-RowHas, (id_field, refl))

pub users_found : Schemas.get schema_set table_name ≡ some users
unfolding Schemas.get lean_rust_wasm.Prelude.BTreeMap.get lean_rust_wasm.Prelude.BTreeMap.lex
users_found = refl
