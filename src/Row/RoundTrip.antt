-- ===== src/Row/RoundTrip.antt =====
-- Rows of row.rs: what `check` decides, the round trip of a row, and the key bytes as an identity.
use mathlib.Core.Logic.{◌↔◌}
use lean_rust_wasm.Prelude.{
  ℕ, ◌+◌, ◌≡◌, refl, ap, List, [], ◌∷◌, ◌++◌, length, All, Bool, true, ◌&&◌, arith, some, ok,
  append_assoc, length-append, drop, drop-append, ◌==◌,
}
use lean_rust_wasm.Codec.{IsByte}
use lean_rust_wasm.Codec.Stable.{IsStable, consumed, Stable-ok, Stable-drop, Stable-bind}
use lean_rust_wasm.Value.{Value, value_ty_matches, enc_value, dec_value}
use lean_rust_wasm.Value.HasTy.{HasTy, InMachine, value_ty_matches-HasTy, matches_of_HasTy}
use lean_rust_wasm.Value.RoundTrip.{dec_value-enc_value}
use lean_rust_wasm.Value.Decode.{dec_value-IsStable, enc_value_unique}
use lean_rust_wasm.Value.Decoded.{Yields, Yields-ok, bind-Yields, dec_value-HasTy, All-drop}
use lean_rust_wasm.Row.{
  Field, Schema, Row, first, row_key, all_typed, check, enc_fields, enc_row, dec_fields, dec_row,
  row_key_bytes,
}

-- The values have the types of the fields, one by one.
abbrev pub AllHaveFields : List Field → List Value → Type 0
AllHaveFields [] [] = Unit
AllHaveFields [] (v ∷ vs) = ⊥
AllHaveFields (f ∷ fs) [] = ⊥
AllHaveFields (f ∷ fs) (v ∷ vs) = HasTy f.ty v × AllHaveFields fs vs

abbrev pub RowHas : Schema → Row → Type 0
RowHas s r = AllHaveFields s.fields r.values

abbrev all_checked : List Field → List Value → Bool
all_checked fs vs = (length fs == length vs) && all_typed fs vs

checked_cons :
    (f : Field) (fs : List Field) (v : Value) (vs : List Value)
    → all_checked (f ∷ fs) (v ∷ vs) ≡ (value_ty_matches f.ty v && all_checked fs vs)
unfolding all_typed
checked_cons f fs v vs = ground arith

fields_of_checked :
    (fs : List Field) (vs : List Value)
    → All InMachine vs
    → all_checked fs vs ≡ true
    → AllHaveFields fs vs
fields_of_checked [] [] m h = tt
fields_of_checked [] (v ∷ vs) m h = ground arith
fields_of_checked (f ∷ fs) [] m h = ground arith
fields_of_checked (f ∷ fs) (v ∷ vs) (m, ms) h = (
  (value_ty_matches-HasTy f.ty m).0 (ground (arith, checked_cons f fs v vs)),
  fields_of_checked fs vs ms (ground (arith, checked_cons f fs v vs)),
)

pub checked_of_fields :
    (fs : List Field) (vs : List Value) → AllHaveFields fs vs → all_checked fs vs ≡ true
unfolding all_typed
checked_of_fields [] [] h = refl
checked_of_fields [] (v ∷ vs) h = absurd h
checked_of_fields (f ∷ fs) [] h = absurd h
checked_of_fields (f ∷ fs) (v ∷ vs) (h, hs) =
    ground (arith, checked_cons f fs v vs, matches_of_HasTy h, checked_of_fields fs vs hs)

-- For values that the machine can hold, `check` accepts exactly the rows of the schema.
pub check-RowHas :
    (s : Schema) (r : Row) → All InMachine r.values → (check s r.values ≡ true) ↔ RowHas s r
unfolding check
check-RowHas s r m = (fields_of_checked s.fields r.values m, checked_of_fields s.fields r.values)

pub check_of_RowHas : (s : Schema) (r : Row) → RowHas s r → check s r.values ≡ true
unfolding check
check_of_RowHas s r h = checked_of_fields s.fields r.values h

dec_fields-enc_fields :
    (fs : List Field) (vs : List Value) (rest : List ℕ)
    → AllHaveFields fs vs
    → dec_fields fs (enc_fields fs vs ++ rest) ≡ ok (vs, length (enc_fields fs vs))
unfolding dec_fields enc_fields
dec_fields-enc_fields [] [] rest h = refl
dec_fields-enc_fields [] (v ∷ vs) rest h = absurd h
dec_fields-enc_fields (f ∷ fs) [] rest h = absurd h
dec_fields-enc_fields (f ∷ fs) (v ∷ vs) rest (h, hs) = simp (
  append_assoc,
  dec_value-enc_value (enc_fields fs vs ++ rest) h,
  drop-append,
  dec_fields-enc_fields fs vs rest hs,
  length-append {0},
)

-- A row of the schema decodes to itself in front of any bytes, and just its bytes are consumed.
pub dec_row-enc_row :
    (s : Schema) (r : Row) (rest : List ℕ)
    → RowHas s r
    → dec_row s (enc_row s r ++ rest) ≡ ok (r, length (enc_row s r))
unfolding dec_row enc_row
dec_row-enc_row s r rest h = simp (dec_fields-enc_fields s.fields r.values rest h)

dec_fields-IsStable : (fs : List Field) → IsStable 0 consumed (dec_fields fs)
unfolding dec_fields
dec_fields-IsStable [] = Stable-ok 0 consumed ([], 0) (omega arith)
dec_fields-IsStable (f ∷ fs) = Stable-bind (dec_value-IsStable f.ty) λ (v, used).
    Stable-bind (Stable-drop used (dec_fields-IsStable fs))
      λ (vs, u). Stable-ok (used + u) consumed (v ∷ vs, used + u) (omega arith)

pub dec_row-IsStable : (s : Schema) → IsStable 0 consumed (dec_row s)
unfolding dec_row
dec_row-IsStable s =
    Stable-bind (dec_fields-IsStable s.fields)
      λ (vs, u). Stable-ok u consumed (record { values = vs }, u) (omega arith)

dec_fields-Yields :
    (fs : List Field) (bs : List ℕ) → All IsByte bs → Yields (AllHaveFields fs) (dec_fields fs bs)
unfolding dec_fields
dec_fields-Yields [] bs b = tt
dec_fields-Yields (f ∷ fs) bs b = bind-Yields _ (dec_value f.ty bs) _ λ (v, used) e.
    bind-Yields _ (dec_fields fs (drop used bs)) _ λ (vs, u) g. (
      dec_value-HasTy f.ty bs v used b e,
      Yields-ok _ (dec_fields fs (drop used bs)) (vs, u)
          (dec_fields-Yields fs (drop used bs) (All-drop used bs b)) g,
    )

dec_row-Yields : (s : Schema) (bs : List ℕ) → All IsByte bs → Yields (RowHas s) (dec_row s bs)
unfolding dec_row
dec_row-Yields s bs b =
    bind-Yields _ (dec_fields s.fields bs) _
      λ (vs, u) e. Yields-ok _ (dec_fields s.fields bs) (vs, u) (dec_fields-Yields s.fields bs b) e

-- A decoded row has the types of its schema: it passes `check` by construction.
pub dec_row-RowHas :
    (s : Schema) (bs : List ℕ) (r : Row) (u : ℕ)
    → All IsByte bs
    → dec_row s bs ≡ ok (r, u)
    → RowHas s r
dec_row-RowHas s bs r u b e = Yields-ok (RowHas s) (dec_row s bs) (r, u) (dec_row-Yields s bs b) e

first-injective :
    (fs : List Field) (vs ws : List Value) (k : List ℕ)
    → AllHaveFields fs vs
    → AllHaveFields fs ws
    → row_key_bytes (record { fields = fs }) (record { values = vs }) ≡ some k
    → row_key_bytes (record { fields = fs }) (record { values = ws }) ≡ some k
    → first vs ≡ first ws
unfolding row_key_bytes
first-injective [] vs ws k hv hw ev ew = cc
first-injective (f ∷ fs) [] ws k hv hw ev ew = cc
first-injective (f ∷ fs) (v ∷ vs) [] k hv hw ev ew = cc
first-injective (f ∷ fs) (v ∷ vs) (w ∷ ws) k (hv, hvs) (hw, hws) ev ew =
    let same : enc_value f.ty v ≡ enc_value f.ty w = cc in
    ap some (enc_value_unique [] [] hv hw (ap (λ t. t ++ []) same)).0

-- Key bytes are canonical: two rows of the schema with the same key bytes have the same key.
pub row_key_bytes-injective :
    (s : Schema) (r q : Row) (k : List ℕ)
    → RowHas s r
    → RowHas s q
    → row_key_bytes s r ≡ some k
    → row_key_bytes s q ≡ some k
    → row_key r ≡ row_key q
row_key_bytes-injective s r q k hr hq er eq' =
    first-injective s.fields r.values q.values k hr hq er eq'
