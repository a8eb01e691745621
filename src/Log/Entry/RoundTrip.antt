-- ===== src/Log/Entry/RoundTrip.antt =====
-- Journal entries of log.rs: an entry that the log can hold encodes, and decodes to itself.
use lean_rust_wasm.Prelude.{
  ℕ, ◌≡◌, refl, List, [], ◌++◌, length, All, true, some, ok, arith, append-nil, append_assoc,
  length-append, drop-append, drop-add,
}
use lean_rust_wasm.Codec.{IsU64, enc_varnat}
use lean_rust_wasm.Codec.Varnat.{dec_varnat-enc_varnat}
use lean_rust_wasm.Value.{Value, enc_value}
use lean_rust_wasm.Value.HasTy.{IsChar, HasTy, matches_of_HasTy}
use lean_rust_wasm.Value.RoundTrip.{dec_value-enc_value}
use lean_rust_wasm.Row.{Field, Schema, Row, schema_key, enc_row, enc_key}
use lean_rust_wasm.Row.RoundTrip.{RowHas, dec_row-enc_row}
use lean_rust_wasm.Delta.{Change, insert, update, remove, tag}
use lean_rust_wasm.Delta.Keys.{ChangeHas}
use lean_rust_wasm.Log.Schemas
use lean_rust_wasm.Log.Schemas.{SchemaSet}
use lean_rust_wasm.Log.Entry.{
  DeltaEntry, enc_string, dec_string, enc_change, dec_row_change, dec_key_change, dec_change_arm,
  dec_change, enc_entry_payload, dec_entry_payload,
}

-- A table name that a `String` can be.
abbrev pub IsText : List ℕ → Type 0
IsText s = All IsChar s × IsU64 (length s)

-- An entry that the log can hold: its table is registered, and both changes are admitted.
pub record EntryHas (ss : SchemaSet) (e : DeltaEntry) : Type 0 where
  pub text : IsText e.table
  pub schema : Schema
  pub found : Schemas.get ss e.table ≡ some schema
  pub change : ChangeHas schema e.change
  pub inverse : ChangeHas schema e.inverse

dec_string-enc_string :
    (s rest : List ℕ) → IsText s → dec_string (enc_string s ++ rest) ≡ ok (s, length (enc_string s))
unfolding dec_string enc_string
dec_string-enc_string s rest (h, n) = simp (dec_value-enc_value rest (HasTy.str s h n))

abbrev change_bytes : Schema → Change → List ℕ
change_bytes s c = (enc_change s c).1

dec_row_change-Reads :
    (make : Row → Change) (s : Schema) (r : Row) (t : ℕ) (rest : List ℕ)
    → RowHas s r
    → dec_row_change make s (length (enc_varnat t)) (enc_varnat t ++ (enc_row s r ++ rest))
      ≡ ok (make r, length (enc_varnat t ++ enc_row s r))
unfolding dec_row_change
dec_row_change-Reads make s r t rest h =
    simp (drop-append, dec_row-enc_row s r rest h, length-append {0})

enc_key-eq :
    (s : Schema) (k : Value) (f : Field)
    → schema_key s ≡ some f
    → HasTy f.ty k
    → enc_key s k ≡ (true, enc_value f.ty k)
unfolding enc_key
enc_key-eq s k f hf hk = ground (arith, matches_of_HasTy hk)

dec_key_change-Reads :
    (s : Schema) (k : Value) (f : Field) (rest : List ℕ)
    → schema_key s ≡ some f
    → HasTy f.ty k
    → dec_key_change s (length (enc_varnat 2)) (enc_varnat 2 ++ (enc_value f.ty k ++ rest))
      ≡ ok (remove k, length (enc_varnat 2 ++ enc_value f.ty k))
unfolding dec_key_change
dec_key_change-Reads s k f rest hf hk =
    simp (hf, drop-append, dec_value-enc_value rest hk, length-append {0})

pub dec_change-enc_change :
    (s : Schema) (c : Change) (rest : List ℕ)
    → ChangeHas s c
    → ((enc_change s c).0 ≡ true)
      × (dec_change s (change_bytes s c ++ rest) ≡ ok (c, length (change_bytes s c)))
unfolding enc_change dec_change dec_change_arm tag
dec_change-enc_change s (insert r) rest (h, k) = (
  refl,
  simp (append_assoc, dec_varnat-enc_varnat 0 (enc_row s r ++ rest) (omega arith))
      (dec_row_change-Reads insert s r 0 rest h),
)
dec_change-enc_change s (update r) rest (h, k) = (
  refl,
  simp (append_assoc, dec_varnat-enc_varnat 1 (enc_row s r ++ rest) (omega arith))
      (dec_row_change-Reads update s r 1 rest h),
)
dec_change-enc_change s (remove k) rest (f, hf, hk) = rw (enc_key-eq s k f hf hk) (
  refl,
  simp (append_assoc, dec_varnat-enc_varnat 2 (enc_value f.ty k ++ rest) (omega arith))
      (dec_key_change-Reads s k f rest hf hk),
)

pub enc_entry_payload-eq :
    (ss : SchemaSet) (e : DeltaEntry) (s : Schema)
    → Schemas.get ss e.table ≡ some s
    → ChangeHas s e.change
    → ChangeHas s e.inverse
    → enc_entry_payload ss e
      ≡ (true, enc_string e.table ++ (change_bytes s e.change ++ change_bytes s e.inverse))
unfolding enc_entry_payload
enc_entry_payload-eq ss e s found hc hi =
    ground (
      arith,
      (dec_change-enc_change s e.change [] hc).0,
      (dec_change-enc_change s e.inverse [] hi).0,
    )

dec_parts :
    (ss : SchemaSet) (e : DeltaEntry)
    → EntryHas ss e
    → (s : Schema) → Schemas.get ss e.table ≡ some s
    → ChangeHas s e.change
    → ChangeHas s e.inverse
    → dec_entry_payload ss
        (enc_string e.table ++ (change_bytes s e.change ++ change_bytes s e.inverse))
      ≡ some e
unfolding dec_entry_payload
dec_parts ss e h s found hc hi =
    let a = enc_string e.table in
    let b = change_bytes s e.change in
    let c = change_bytes s e.inverse in
    simp
      (
        dec_string-enc_string e.table (b ++ c) h.text,
        found,
        drop-append,
        drop-add,
        (dec_change-enc_change s e.change c hc).1,
        inverse_alone,
        length-append {0},
      )
      (ground arith)
  where
    inverse_alone :
        dec_change s (change_bytes s e.inverse) ≡ ok (e.inverse, length (change_bytes s e.inverse))
    inverse_alone = rw append-nil at ((dec_change-enc_change s e.inverse [] hi).1)

-- Every entry that the log can hold encodes, and its payload decodes to it with nothing left over.
pub dec_entry_payload-enc_entry_payload :
    (ss : SchemaSet) (e : DeltaEntry)
    → EntryHas ss e
    → ((enc_entry_payload ss e).0 ≡ true)
      × (dec_entry_payload ss (enc_entry_payload ss e).1 ≡ some e)
dec_entry_payload-enc_entry_payload ss e h =
    rw (enc_entry_payload-eq ss e h.schema h.found h.change h.inverse)
      (refl, dec_parts ss e h h.schema h.found h.change h.inverse)
