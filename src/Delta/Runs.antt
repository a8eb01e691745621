-- ===== src/Delta/Runs.antt =====
-- The theorems on changes and tables of delta.rs at concrete inputs.
use lean_rust_wasm.Prelude.{◌≡◌, refl, [], ◌∷◌, some}
use lean_rust_wasm.Codec.{enc_varnat}
use lean_rust_wasm.Value.{enc_value}
use lean_rust_wasm.Row.{row_key_bytes}
use lean_rust_wasm.Delta.{Change, Table, empty, get, key_bytes, patch, invert}
use lean_rust_wasm.Delta.Keys.{ChangeHas}
use lean_rust_wasm.Delta.Tables.{IsValid, empty-IsValid, patch-IsValid}
use lean_rust_wasm.Delta.Inverse.{patch-invert}
use lean_rust_wasm.Samples.{
  users, user_off, insert_on, user_off-RowHas, insert_on-ChangeHas, id_field,
}

-- A table with one user, and a change of that user.
abbrev one_user : Table
one_user = patch users empty insert_on

abbrev turn_off : Change
turn_off = Change.update user_off

turn_off-ChangeHas : ChangeHas users turn_off
turn_off-ChangeHas = (user_off-RowHas, (id_field, refl))

turn_off_key : key_bytes users turn_off ≡ some (7 ∷ [])
unfolding key_bytes row_key_bytes enc_value enc_varnat
turn_off_key = refl

one_user-IsValid : IsValid users one_user
one_user-IsValid = patch-IsValid users empty insert_on (empty-IsValid users) insert_on-ChangeHas

patch-invert_example :
    (inv : Change) × (invert users turn_off (get one_user (7 ∷ [])) ≡ some inv)
    × ChangeHas users inv
    × (patch users (patch users one_user turn_off) inv ≡ one_user)
patch-invert_example =
    patch-invert users one_user turn_off (7 ∷ []) one_user-IsValid turn_off-ChangeHas turn_off_key
