-- ===== src/Delta/Keys.antt =====
-- Well-typed changes of delta.rs, and the keys that they act on.
use lean_rust_wasm.Prelude.{ℕ, ◌≡◌, refl, sym, subst, ◌∙◌, List, [], ◌∷◌, some, arith}
use lean_rust_wasm.Value.{Value, enc_value}
use lean_rust_wasm.Value.HasTy.{HasTy, matches_of_HasTy}
use lean_rust_wasm.Row.{Field, Schema, Row, first, schema_key, row_key, row_key_bytes, enc_key}
use lean_rust_wasm.Row.RoundTrip.{AllHaveFields, RowHas}
use lean_rust_wasm.Delta.{Change, insert, update, remove, key_bytes}

-- `k` is a key of the schema: it has a first field, and `k` its type.
abbrev pub KeyHas : Schema → Value → Type 0
KeyHas s k = (f : Field) × (schema_key s ≡ some f) × HasTy f.ty k

-- A change that the schema admits; a schema with no field admits none.
abbrev pub ChangeHas : Schema → Change → Type 0
ChangeHas s (insert r) = RowHas s r × ((f : Field) × (schema_key s ≡ some f))
ChangeHas s (update r) = RowHas s r × ((f : Field) × (schema_key s ≡ some f))
ChangeHas s (remove k) = KeyHas s k

row_key_lists :
    (fs : List Field) (vs : List Value) (f : Field)
    → AllHaveFields fs vs
    → first fs ≡ some f
    → (v : Value) × (first vs ≡ some v) × HasTy f.ty v
row_key_lists [] vs f h e = cc
row_key_lists (g ∷ fs) [] f h e = absurd h
row_key_lists (g ∷ fs) (v ∷ vs) f (h, hs) e =
    let same : g ≡ f = cc in (v, refl, subst (λ t. HasTy t.ty v) same h)

-- A row of a schema with a key has a key value of the key's type.
pub row_key-KeyHas :
    (s : Schema) (r : Row) (f : Field)
    → RowHas s r
    → schema_key s ≡ some f
    → (v : Value) × (row_key r ≡ some v) × HasTy f.ty v
row_key-KeyHas s r f h e = row_key_lists s.fields r.values f h e

pub row_key_bytes_lem :
    (s : Schema) (r : Row) (f : Field) (v : Value)
    → schema_key s ≡ some f
    → row_key r ≡ some v
    → row_key_bytes s r ≡ some (enc_value f.ty v)
unfolding row_key_bytes
row_key_bytes_lem s r f v hf hv = ground arith

pub key_bytes-remove :
    (s : Schema) (k : Value) (f : Field)
    → schema_key s ≡ some f
    → HasTy f.ty k
    → key_bytes s (remove k) ≡ some (enc_value f.ty k)
unfolding key_bytes enc_key
key_bytes-remove s k f hf hk = ground (arith, matches_of_HasTy hk)

-- Every admitted change acts on a key.
pub key_bytes_total :
    (s : Schema) (c : Change) → ChangeHas s c → (k : List ℕ) × (key_bytes s c ≡ some k)
unfolding key_bytes
key_bytes_total s (insert r) (h, (f, hf)) =
    let (v, hv, tv) = row_key-KeyHas s r f h hf in
    (enc_value f.ty v, row_key_bytes_lem s r f v hf hv)
key_bytes_total s (update r) (h, (f, hf)) =
    let (v, hv, tv) = row_key-KeyHas s r f h hf in
    (enc_value f.ty v, row_key_bytes_lem s r f v hf hv)
key_bytes_total s (remove k) (f, hf, hk) = (enc_value f.ty k, key_bytes-remove s k f hf hk)

-- The removal of a row's own key acts on the row's key bytes.
pub key_bytes-remove_own :
    (s : Schema) (r : Row) (f : Field) (v : Value)
    → RowHas s r
    → schema_key s ≡ some f
    → row_key r ≡ some v
    → (key_bytes s (remove v) ≡ row_key_bytes s r) × KeyHas s v
key_bytes-remove_own s r f v h hf hv =
    let (w, hw, tw) = row_key-KeyHas s r f h hf in
    let same : w ≡ v = cc (hw, hv) in
    let tv : HasTy f.ty v = subst (HasTy f.ty) same tw in
    (key_bytes-remove s v f hf tv ∙ sym (row_key_bytes_lem s r f v hf hv), (f, hf, tv))
