-- ===== src/Log/Schemas.antt =====
-- `SchemaSet` of log.rs and its fingerprint, FNV-1a over names and type tags.
pub mod Fingerprint
use Prim.Native.Nat.{bit_xor}
use mathlib.Core.List.{foldl}
use lean_rust_wasm.Prelude.{
  ℕ, ◌+◌, ◌*◌, ◌/◌, ◌%◌, ◌^◌, List, [], ◌∷◌, ◌++◌, Option, ltb, if◌then◌else◌,
}
use lean_rust_wasm.Prelude.BTreeMap
use lean_rust_wasm.Prelude.BTreeMap.{BTreeMap}
use lean_rust_wasm.Value.{Ty}
use lean_rust_wasm.Row.{Field, Schema}

pub record SchemaSet : Type 0 where
  pub tables : BTreeMap Schema

abbrev pub new : SchemaSet
new = record { tables = [] }

unfoldable pub register : SchemaSet → List ℕ → Schema → SchemaSet
register s table schema = record { tables = BTreeMap.insert table schema s.tables }

unfoldable pub get : SchemaSet → List ℕ → Option Schema
get s table = BTreeMap.get table s.tables

-- `as_bytes`: the UTF-8 form of a code point, and of a text.
unfoldable pub utf8 : ℕ → List ℕ
utf8 c =
    if ltb c 0x80
    then c ∷ []
    else if ltb c 0x800
    then (0xc0 + c / 64) ∷ (0x80 + c % 64) ∷ []
    else if ltb c 0x10000
    then (0xe0 + c / 4096) ∷ (0x80 + c / 64 % 64) ∷ (0x80 + c % 64) ∷ []
    else (0xf0 + c / 262144) ∷ (0x80 + c / 4096 % 64) ∷ (0x80 + c / 64 % 64) ∷ (0x80 + c % 64) ∷ []

unfoldable pub as_bytes : List ℕ → List ℕ
as_bytes [] = []
as_bytes (c ∷ cs) = utf8 c ++ as_bytes cs

unfoldable pub enc_ty_tag : Ty → List ℕ
enc_ty_tag Ty.bool = 1 ∷ []
enc_ty_tag Ty.u8 = 2 ∷ []
enc_ty_tag Ty.u16 = 3 ∷ []
enc_ty_tag Ty.u32 = 4 ∷ []
enc_ty_tag Ty.u64 = 5 ∷ []
enc_ty_tag Ty.i8 = 6 ∷ []
enc_ty_tag Ty.i16 = 7 ∷ []
enc_ty_tag Ty.i32 = 8 ∷ []
enc_ty_tag Ty.i64 = 9 ∷ []
enc_ty_tag Ty.str = 10 ∷ []
enc_ty_tag Ty.bytes = 11 ∷ []
enc_ty_tag (Ty.opt t) = 12 ∷ enc_ty_tag t
enc_ty_tag (Ty.res good bad) = 13 ∷ (enc_ty_tag good ++ enc_ty_tag bad)
enc_ty_tag (Ty.list t) = 14 ∷ enc_ty_tag t

abbrev pub fnv_basis : ℕ
fnv_basis = 0xcbf2_9ce4_8422_2325

abbrev pub fnv_prime : ℕ
fnv_prime = 0x0000_0100_0000_01b3

-- One round: `h ^= b`, then `wrapping_mul`.
unfoldable pub mix_byte : ℕ → ℕ → ℕ
mix_byte h b = bit_xor h b * fnv_prime % 2 ^ 64

unfoldable pub mix : ℕ → List ℕ → ℕ
mix h [] = h
mix h (b ∷ bs) = mix (mix_byte h b) bs

unfoldable pub mix_fields : ℕ → List Field → ℕ
mix_fields h [] = h
mix_fields h (f ∷ fs) = mix_fields (mix (mix h (as_bytes f.name)) (enc_ty_tag f.ty)) fs

unfoldable pub mix_tables : ℕ → BTreeMap Schema → ℕ
mix_tables h [] = h
mix_tables h ((name, schema) ∷ ts) =
    mix_tables (mix_fields (mix h (as_bytes name)) schema.fields) ts

unfoldable pub fingerprint : SchemaSet → ℕ
fingerprint s = mix_tables fnv_basis s.tables
