-- ===== src/Row.antt =====
-- Schemas and rows, crates/wasm-delta/src/row.rs. A field list is the decoder's argument, and the
-- first field is the key.
pub mod RoundTrip
mod Runs
use lean_rust_wasm.Prelude.{
  ℕ, ◌+◌, List, [], ◌∷◌, ◌++◌, length, drop, Bool, true, false, ◌&&◌, Option, none, some, ok, ◌>>=◌,
  to_option, ◌==◌, if◌then◌else◌,
}
use lean_rust_wasm.Codec.{DecResult}
use lean_rust_wasm.Value.{Ty, Value, value_ty_matches, enc_value, dec_value}

pub record Field : Type 0 where
  pub name : List ℕ
  pub ty : Ty

pub record Schema : Type 0 where
  pub fields : List Field

pub record Row : Type 0 where
  pub values : List Value

-- `.first()`
abbrev pub first {ℓ} : {A : Type ℓ} → List A → Option A
first [] = none
first (x ∷ xs) = some x

abbrev pub schema_key : Schema → Option Field
schema_key s = first s.fields

abbrev pub row_key : Row → Option Value
row_key r = first r.values

-- `zip(..).all(..)`: stops at the end of the shorter list.
unfoldable pub all_typed : List Field → List Value → Bool
all_typed [] vs = true
all_typed (f ∷ fs) [] = true
all_typed (f ∷ fs) (v ∷ vs) = value_ty_matches f.ty v && all_typed fs vs

unfoldable pub check : Schema → List Value → Bool
check s values = (length s.fields == length values) && all_typed s.fields values

unfoldable pub row_new : Schema → List Value → Option Row
row_new s values = if check s values then some (record { values = values }) else none

unfoldable pub enc_fields : List Field → List Value → List ℕ
enc_fields [] vs = []
enc_fields (f ∷ fs) [] = []
enc_fields (f ∷ fs) (v ∷ vs) = enc_value f.ty v ++ enc_fields fs vs

unfoldable pub enc_row : Schema → Row → List ℕ
enc_row s r = enc_fields s.fields r.values

unfoldable pub dec_fields : List Field → List ℕ → DecResult (List Value)
dec_fields [] bs = ok ([], 0)
dec_fields (f ∷ fs) bs = do
  (v, used) ← dec_value f.ty bs
  (vs, u) ← dec_fields fs (drop used bs)
  ok (v ∷ vs, used + u)

unfoldable pub dec_row : Schema → List ℕ → DecResult Row
dec_row s bs = do (vs, u) ← dec_fields s.fields bs; ok (record { values = vs }, u)

unfoldable pub encode_row : Schema → Row → Option (List ℕ)
encode_row s r = if check s r.values then some (enc_row s r) else none

unfoldable pub decode_row : Schema → List ℕ → Option (Row × ℕ)
decode_row s bs = to_option (dec_row s bs)

unfoldable pub row_key_bytes : Schema → Row → Option (List ℕ)
row_key_bytes s r = elim (schema_key s) [
  | none ↦ none
  | some f ↦ elim (row_key r) [ none ↦ none | some key ↦ some (enc_value f.ty key) ]
]

-- Whether the key was written, and the bytes appended.
unfoldable pub enc_key : Schema → Value → Bool × List ℕ
enc_key s key = elim (schema_key s) [
  | none ↦ (false, [])
  | some f ↦ if value_ty_matches f.ty key then (true, enc_value f.ty key) else (false, [])
]
