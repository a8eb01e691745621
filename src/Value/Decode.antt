-- ===== src/Value/Decode.antt =====
-- `dec_value` of value.rs on any input: more bytes do not change an answer, a cut encoding is torn,
-- and encodings are self-delimiting.
use lean_rust_wasm.Prelude.{
  ℕ, zero, suc, ◌+◌, ◌-◌, ◌≤◌, ◌≡◌, refl, sym, ap, ◌∙◌, List, [], ◌∷◌, ◌++◌, length, arith, Result,
  ok, err, append-nil, drop, drop-append, ok_or,
}
use lean_rust_wasm.Prelude.Int.{ℤ}
use mathlib.Core.Path.{ap₂}
use lean_rust_wasm.Codec.{DecResult, DecFail, torn, corrupt}
use lean_rust_wasm.Codec.Stable.{
  IsStable, consumed, Stable-ok, Stable-err, Stable-drop, Stable-bind, torn_of_proper_prefix,
}
use lean_rust_wasm.Codec.RoundTrip.{dec_varnat-IsStable, dec_bool-IsStable, dec_bytes-IsStable}
use lean_rust_wasm.Value.{
  Ty, Value, opt_none, opt_some, res_ok, res_err, from_list, unzigzag, char_from, enc_value,
  dec_many, dec_char, narrow, dec_unsigned, dec_signed, dec_tagged, dec_payload, dec_u8, dec_value,
}
use lean_rust_wasm.Value.HasTy.{HasTy}
use lean_rust_wasm.Value.RoundTrip.{dec_value-enc_value}

-- A step that reads no input.
Stable-const {ℓ} :
    {A : Type ℓ} (from : ℕ) (m : Result DecFail A) → IsStable from (λ (a : A). from) (λ _. m)
Stable-const from (ok a) = Stable-ok from _ a (omega arith)
Stable-const from (err x) = Stable-err from _ x

pub dec_many-IsStable {ℓ} :
    {A : Type ℓ} (d : List ℕ → DecResult A) (n : ℕ)
    → IsStable 0 consumed d
    → IsStable 0 consumed (dec_many d n)
unfolding dec_many
dec_many-IsStable d zero s = Stable-ok 0 consumed ([], 0) (omega arith)
dec_many-IsStable d (suc n) s = Stable-bind s λ (x, used).
    Stable-bind (Stable-drop used (dec_many-IsStable d n s))
      λ (xs, u). Stable-ok (used + u) consumed (x ∷ xs, used + u) (omega arith)

dec_char-IsStable : IsStable 0 consumed dec_char
unfolding dec_char
dec_char-IsStable = Stable-bind dec_varnat-IsStable λ (cp, used).
    Stable-bind (Stable-const used (ok_or (char_from cp) corrupt))
      λ c. Stable-ok used consumed (c, used) (omega arith)

dec_unsigned-IsStable :
    (bound : ℕ) (make : ℕ → Value) → IsStable 0 consumed (dec_unsigned bound make)
unfolding dec_unsigned
dec_unsigned-IsStable bound make = Stable-bind dec_varnat-IsStable λ (n, u).
    Stable-bind (Stable-const u (narrow bound n))
      λ x. Stable-ok u consumed (make x, u) (omega arith)

dec_signed-IsStable : (make : ℤ → Value) → IsStable 0 consumed (dec_signed make)
unfolding dec_signed
dec_signed-IsStable make =
    Stable-bind dec_varnat-IsStable
      λ (n, u). Stable-ok u consumed (make (unzigzag n), u) (omega arith)

-- What an arm behind the tag byte has consumed of the bytes after the tag.
abbrev past_tag : Value × ℕ → ℕ
past_tag p = p.1 - 1

dec_payload-IsStable :
    (make : Value → Value) {d : List ℕ → DecResult Value}
    → IsStable 0 consumed d
    → IsStable 0 past_tag (dec_payload make d)
unfolding dec_payload
dec_payload-IsStable make s =
    Stable-bind s λ (x, used). Stable-ok used past_tag (make x, 1 + used) (omega arith)

dec_tagged-IsStable :
    {z o : List ℕ → DecResult Value}
    → IsStable 0 past_tag z
    → IsStable 0 past_tag o
    → IsStable 0 consumed (dec_tagged z o)
unfolding dec_tagged
dec_tagged-IsStable {z} {o} sz so = record { keeps = keep; rejects = reject }
  where
    keep :
        (bs more : List ℕ) (p : Value × ℕ)
        → 0 ≤ length bs
        → dec_tagged z o bs ≡ ok p
        → (dec_tagged z o (bs ++ more) ≡ ok p) × (consumed p ≤ length bs)
    keep [] more p le e = cc
    keep (tag ∷ bs) more p le e = ground (arith, sz.keeps bs more p, so.keeps bs more p)

    reject :
        (bs more : List ℕ)
        → 0 ≤ length bs
        → dec_tagged z o bs ≡ err corrupt
        → dec_tagged z o (bs ++ more) ≡ err corrupt
    reject [] more le e = cc
    reject (tag ∷ bs) more le e = ground (arith, sz.rejects bs more, so.rejects bs more)

dec_u8-IsStable : IsStable 0 consumed dec_u8
unfolding dec_u8
dec_u8-IsStable = record { keeps = keep; rejects = reject }
  where
    keep :
        (bs more : List ℕ) (p : Value × ℕ)
        → 0 ≤ length bs
        → dec_u8 bs ≡ ok p
        → (dec_u8 (bs ++ more) ≡ ok p) × (consumed p ≤ length bs)
    keep [] more p le e = cc
    keep (x ∷ bs) more p le e = (e, ground arith)

    reject :
        (bs more : List ℕ)
        → 0 ≤ length bs
        → dec_u8 bs ≡ err corrupt
        → dec_u8 (bs ++ more) ≡ err corrupt
    reject [] more le e = cc
    reject (x ∷ bs) more le e = cc

-- Whatever the type, a decoded value stays decoded and corrupt bytes stay corrupt under more input.
pub dec_value-IsStable : (t : Ty) → IsStable 0 consumed (dec_value t)
unfolding dec_value
dec_value-IsStable Ty.bool =
    Stable-bind dec_bool-IsStable λ (b, u). Stable-ok u consumed (Value.bool b, u) (omega arith)
dec_value-IsStable Ty.u8 = dec_u8-IsStable
dec_value-IsStable Ty.u16 = dec_unsigned-IsStable _ Value.u16
dec_value-IsStable Ty.u32 = dec_unsigned-IsStable _ Value.u32
dec_value-IsStable Ty.u64 =
    Stable-bind dec_varnat-IsStable λ (n, u). Stable-ok u consumed (Value.u64 n, u) (omega arith)
dec_value-IsStable Ty.i8 = dec_signed-IsStable _
dec_value-IsStable Ty.i16 = dec_signed-IsStable _
dec_value-IsStable Ty.i32 = dec_signed-IsStable _
dec_value-IsStable Ty.i64 = dec_signed-IsStable _
dec_value-IsStable Ty.str = Stable-bind dec_varnat-IsStable λ (count, u).
    Stable-bind (Stable-drop u (dec_many-IsStable dec_char count dec_char-IsStable))
      λ (s, used). Stable-ok (u + used) consumed (Value.str s, u + used) (omega arith)
dec_value-IsStable Ty.bytes =
    Stable-bind dec_bytes-IsStable λ (p, u). Stable-ok u consumed (Value.bytes p, u) (omega arith)
dec_value-IsStable (Ty.opt t) =
    dec_tagged-IsStable (Stable-ok 0 past_tag (opt_none, 1) (omega arith))
      (dec_payload-IsStable opt_some (dec_value-IsStable t))
dec_value-IsStable (Ty.res a b) =
    dec_tagged-IsStable (dec_payload-IsStable res_ok (dec_value-IsStable a))
      (dec_payload-IsStable res_err (dec_value-IsStable b))
dec_value-IsStable (Ty.list t) = Stable-bind dec_varnat-IsStable λ (count, u).
    Stable-bind (Stable-drop u (dec_many-IsStable (dec_value t) count (dec_value-IsStable t)))
      λ (xs, used).
        Stable-ok (u + used) consumed (Value.list (from_list xs), u + used) (omega arith)

-- A proper prefix of the encoding of a typed value is torn: never corrupt, and never another value.
pub dec_value_torn :
    {t : Ty} {v : Value} (x : ℕ) (front back : List ℕ)
    → HasTy t v
    → enc_value t v ≡ front ++ (x ∷ back)
    → dec_value t front ≡ err torn
dec_value_torn {t} {v} x front back h e =
    torn_of_proper_prefix (dec_value-IsStable t) (v, length (front ++ (x ∷ back))) x front back
      (rw (append-nil, e) at (dec_value-enc_value [] h)) refl

-- Encodings are self-delimiting: where two of them begin the same bytes, the values are equal, and
-- so are the bytes that follow.
pub enc_value_unique :
    {t : Ty} {v w : Value} (r s : List ℕ)
    → HasTy t v
    → HasTy t w
    → enc_value t v ++ r ≡ enc_value t w ++ s
    → (v ≡ w) × (r ≡ s)
enc_value_unique {t} {v} {w} r s hv hw e = (same, rest)
  where
    decoded :
        ◌≡◌ {A = DecResult Value} (ok (v, length (enc_value t v))) (ok (w, length (enc_value t w)))
    decoded = sym (dec_value-enc_value r hv) ∙ ap (dec_value t) e ∙ dec_value-enc_value s hw

    same : v ≡ w
    same = cc decoded

    rest : r ≡ s
    rest =
        sym (drop-append (enc_value t v) r)
        ∙ ap₂ drop (ap (λ u. length (enc_value t u)) same) e
        ∙ drop-append (enc_value t w) s
