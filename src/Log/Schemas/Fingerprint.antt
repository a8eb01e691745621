-- ===== src/Log/Schemas/Fingerprint.antt =====
-- What the fingerprint of log.rs distinguishes, and what it does not.
use lean_rust_wasm.Prelude.{ℕ, List, [], ◌∷◌, arith}
use lean_rust_wasm.Prelude.BTreeMap
use lean_rust_wasm.Prelude.BTreeMap.{BTreeMap}
use lean_rust_wasm.Codec.{IsU64}
use lean_rust_wasm.Value.{Ty}
use lean_rust_wasm.Row.{Field, Schema}
use lean_rust_wasm.Log.Schemas.{
  SchemaSet, new, register, as_bytes, enc_ty_tag, fnv_basis, mix_byte, mix, mix_fields, mix_tables,
  fingerprint,
}

mix-IsU64 : (h : ℕ) (bs : List ℕ) → IsU64 h → IsU64 (mix h bs)
unfolding mix mix_byte
mix-IsU64 h [] u = u
mix-IsU64 h (b ∷ bs) u = mix-IsU64 (mix_byte h b) bs (omega arith)

mix_fields-IsU64 : (h : ℕ) (fs : List Field) → IsU64 h → IsU64 (mix_fields h fs)
unfolding mix_fields
mix_fields-IsU64 h [] u = u
mix_fields-IsU64 h (f ∷ fs) u =
    mix_fields-IsU64 (mix (mix h (as_bytes f.name)) (enc_ty_tag f.ty)) fs
      (mix-IsU64 (mix h (as_bytes f.name)) (enc_ty_tag f.ty) (mix-IsU64 h (as_bytes f.name) u))

mix_tables-IsU64 : (h : ℕ) (ts : BTreeMap Schema) → IsU64 h → IsU64 (mix_tables h ts)
unfolding mix_tables
mix_tables-IsU64 h [] u = u
mix_tables-IsU64 h ((name, schema) ∷ ts) u =
    mix_tables-IsU64 (mix_fields (mix h (as_bytes name)) schema.fields) ts
      (mix_fields-IsU64 (mix h (as_bytes name)) schema.fields (mix-IsU64 h (as_bytes name) u))

-- The fingerprint of every schema set is a u64.
pub fingerprint-IsU64 : (s : SchemaSet) → IsU64 (fingerprint s)
unfolding fingerprint
fingerprint-IsU64 s = mix_tables-IsU64 fnv_basis s.tables (omega arith)

-- A set with one table of one field.
abbrev pub one_field : List ℕ → List ℕ → Ty → SchemaSet
one_field table field ty =
    register new table (record { fields = record { name = field; ty = ty } ∷ [] })
