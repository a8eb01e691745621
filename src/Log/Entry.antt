-- ===== src/Log/Entry.antt =====
-- The journal record of log.rs: table name, change and inverse, inside an envelope.
pub mod RoundTrip
use mathlib.Core.Option
use lean_rust_wasm.Prelude.{
  ℕ, ◌+◌, List, [], ◌∷◌, ◌++◌, length, drop, Bool, true, false, ◌&&◌, Option, none, some, Result,
  ok, err, ◌>>=◌, ok_or, to_option, ◌==◌, if◌then◌else◌,
}
use lean_rust_wasm.Codec.{DecResult, DecFail, torn, enc_varnat, dec_varnat, enc_envelope}
use lean_rust_wasm.Value.{Ty, Value, enc_value, dec_value}
use lean_rust_wasm.Row.{Field, Schema, Row, schema_key, enc_row, dec_row, enc_key}
use lean_rust_wasm.Delta.{Change, insert, update, remove, tag}
use lean_rust_wasm.Log.Schemas
use lean_rust_wasm.Log.Schemas.{SchemaSet, fingerprint}

abbrev pub version : ℕ
version = 1

pub record DeltaEntry : Type 0 where
  pub table : List ℕ
  pub change : Change
  pub inverse : Change

unfoldable pub enc_string : List ℕ → List ℕ
enc_string s = enc_value Ty.str (Value.str s)

abbrev pub as_str : Value × ℕ → DecResult (List ℕ)
as_str (Value.str s, u) = ok (s, u)
as_str (_, u) = err DecFail.corrupt

unfoldable pub dec_string : List ℕ → DecResult (List ℕ)
dec_string bs = dec_value Ty.str bs >>= as_str

-- Whether all was written, and the bytes appended; `a && b` stops at the first part that fails.
abbrev pub chain : Bool × List ℕ → Bool × List ℕ → Bool × List ℕ
chain (true, out) (done, more) = (done, out ++ more)
chain (false, out) next = (false, out)

unfoldable pub enc_change : Schema → Change → Bool × List ℕ
enc_change s (insert r) = (true, enc_varnat (tag (insert r)) ++ enc_row s r)
enc_change s (update r) = (true, enc_varnat (tag (update r)) ++ enc_row s r)
enc_change s (remove k) = chain (true, enc_varnat (tag (remove k))) (enc_key s k)

-- The arms of `match tag`, behind the tag's `u` bytes.
unfoldable pub dec_row_change : (Row → Change) → Schema → ℕ → List ℕ → DecResult Change
dec_row_change make s u bs = do (row, used) ← dec_row s (drop u bs); ok (make row, u + used)

unfoldable pub dec_key_change : Schema → ℕ → List ℕ → DecResult Change
dec_key_change s u bs = do
  f ← ok_or (schema_key s) DecFail.corrupt
  (key, used) ← dec_value f.ty (drop u bs)
  ok (remove key, u + used)

unfoldable pub dec_change_arm : Schema → ℕ × ℕ → List ℕ → DecResult Change
dec_change_arm s (t, u) bs =
    if t == 0
    then dec_row_change insert s u bs
    else if t == 1
    then dec_row_change update s u bs
    else if t == 2
    then dec_key_change s u bs
    else err DecFail.corrupt

unfoldable pub dec_change : Schema → List ℕ → DecResult Change
dec_change s bs = dec_varnat bs >>= λ p. dec_change_arm s p bs

unfoldable pub enc_entry_payload : SchemaSet → DeltaEntry → Bool × List ℕ
enc_entry_payload ss e = elim (Schemas.get ss e.table) [
  | none ↦ (false, [])
  | some s ↦
      chain (true, enc_string e.table) (chain (enc_change s e.change) (enc_change s e.inverse))
]

-- `?` on an `Option`.
infixl 5 ◌>>?◌
abbrev pub ◌>>?◌ {ℓ κ} : {A : Type ℓ} {B : Type κ} → Option A → (A → Option B) → Option B
none >>? f = none
some a >>? f = f a

unfoldable pub dec_entry_payload : SchemaSet → List ℕ → Option DeltaEntry
dec_entry_payload ss payload = to_option (dec_string payload) >>? λ (table, u1).
    Schemas.get ss table >>? λ s. to_option (dec_change s (drop u1 payload)) >>? λ (change, u2).
    to_option (dec_change s (drop (u1 + u2) payload)) >>? λ (inverse, u3).
    if u1 + u2 + u3 == length payload
    then some (record { table = table; change = change; inverse = inverse })
    else none

-- The bytes that `append` writes for an entry with this payload.
unfoldable pub enc_record : SchemaSet → List ℕ → List ℕ
enc_record ss payload = enc_envelope version (fingerprint ss) payload
