-- ===== src/Row/Runs.antt =====
-- The theorems on rows of row.rs at concrete inputs.
use lean_rust_wasm.Prelude.{◌≡◌, refl, [], ◌∷◌, some, ok}
use lean_rust_wasm.Codec.{enc_varnat, dec_varnat, dec_varnat_loop, dec_bool}
use lean_rust_wasm.Value.{enc_value, dec_value, dec_unsigned, narrow}
use lean_rust_wasm.Row.{dec_row, dec_fields, row_key_bytes}
use lean_rust_wasm.Samples.{users, user_on, user_off}

user_on_decodes : dec_row users (7 ∷ 1 ∷ []) ≡ ok (user_on, 2)
unfolding dec_row dec_fields dec_value dec_unsigned dec_varnat dec_varnat_loop dec_bool narrow
user_on_decodes = refl

on_key : row_key_bytes users user_on ≡ some (7 ∷ [])
unfolding row_key_bytes enc_value enc_varnat
on_key = refl

off_key : row_key_bytes users user_off ≡ some (7 ∷ [])
unfolding row_key_bytes enc_value enc_varnat
off_key = refl
