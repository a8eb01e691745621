-- ===== src/Value/RoundTrip.antt =====
-- `dec_value` of value.rs reads back what `enc_value` wrote, at every type and whatever follows.
use lean_rust_wasm.Prelude.{
  ℕ, suc, ◌+◌, ◌^◌, ◌<◌, ◌≤◌, ◌≡◌, refl, ap, ◌∙◌, List, [], ◌∷◌, ◌++◌, length, All, arith, some, ok,
  append_assoc, length-append, drop-append,
}
use lean_rust_wasm.Prelude.Int.{ℤ, pos, negsuc, InRange}
use lean_rust_wasm.Codec.{DecResult, enc_varnat}
use lean_rust_wasm.Codec.Varnat.{dec_varnat-enc_varnat}
use lean_rust_wasm.Codec.RoundTrip.{dec_bool-enc_bool, dec_bytes-enc_bytes}
use lean_rust_wasm.Value.{
  Ty, Value, Values, nil, cons, opt_some, res_ok, res_err, length_values, from_list, to_list,
  zigzag, as_signed, char_from, enc_chars, enc_value, enc_values, dec_many, dec_char, narrow,
  dec_unsigned, dec_signed, dec_tagged, dec_payload, dec_u8, dec_value,
}
use lean_rust_wasm.Value.Zigzag.{zigzag-IsU64, unzigzag-zigzag, as_signed_self}
use lean_rust_wasm.Value.HasTy.{
  IsChar, HasTy, AllHave, bool, u8, u16, u32, u64, i8, i16, i32, i64, str, bytes, absent, present,
  good, bad, list, none_left, and_then,
}

pub from_list-to_list : (xs : Values) → from_list (to_list xs) ≡ xs
from_list-to_list nil = refl
from_list-to_list (cons x xs) = ap (cons x) (from_list-to_list xs)

-- `d` reads `a` off the front of `printed`, and consumes just that.
abbrev Reads {ℓ} : {A : Type ℓ} → (List ℕ → DecResult A) → List ℕ → A → Type ℓ
Reads d printed a = (rest : List ℕ) → d (printed ++ rest) ≡ ok (a, length printed)

char_from_char : (c : ℕ) → IsChar c → char_from c ≡ some c
unfolding char_from
char_from_char c h = ground arith

dec_char-Reads : (c : ℕ) → IsChar c → Reads dec_char (enc_varnat c) c
unfolding dec_char
dec_char-Reads c h rest = simp (dec_varnat-enc_varnat c rest (omega arith), char_from_char c h)

dec_chars-Reads : (s : List ℕ) → All IsChar s → Reads (dec_many dec_char (length s)) (enc_chars s) s
unfolding dec_many enc_chars
dec_chars-Reads [] h rest = refl
dec_chars-Reads (c ∷ cs) (h, hs) rest =
    simp (append_assoc, dec_char-Reads c h, drop-append, dec_chars-Reads cs hs, length-append {0})

dec_unsigned-Reads :
    (bound : ℕ) (make : ℕ → Value) (x : ℕ)
    → x < bound
    → bound ≤ 2 ^ 64
    → Reads (dec_unsigned bound make) (enc_varnat x) (make x)
unfolding dec_unsigned narrow
dec_unsigned-Reads bound make x h le rest =
    simp (dec_varnat-enc_varnat x rest (omega arith)) (ground arith)

dec_signed-Reads :
    (make : ℤ → Value) (i : ℤ)
    → InRange (2 ^ 63) i
    → Reads (dec_signed make) (enc_varnat (zigzag i)) (make i)
unfolding dec_signed
dec_signed-Reads make i h rest =
    simp (dec_varnat-enc_varnat (zigzag i) rest (zigzag-IsU64 i h), unzigzag-zigzag i h)

InRange-le : (a b : ℕ) (i : ℤ) → a ≤ b → InRange a i → InRange b i
InRange-le a b (pos n) le h = omega arith
InRange-le a b (negsuc n) le h = omega arith

dec_narrow-Reads :
    (half : ℕ) (make : ℤ → Value) (i : ℤ)
    → InRange half i
    → half ≤ 2 ^ 63
    → Reads (dec_signed (λ j. make (as_signed half j))) (enc_varnat (zigzag i)) (make i)
dec_narrow-Reads half make i h le rest =
    dec_signed-Reads (λ j. make (as_signed half j)) i (InRange-le half (2 ^ 63) i le h) rest
    ∙ ap (λ j. ok (make j, length (enc_varnat (zigzag i)))) (as_signed_self half i h)

dec_payload-Reads :
    (make : Value → Value) (d : List ℕ → DecResult Value) (printed rest : List ℕ) (x : Value)
    → Reads d printed x
    → dec_payload make d (printed ++ rest) ≡ ok (make x, 1 + length printed)
unfolding dec_payload
dec_payload-Reads make d printed rest x h = simp (h rest)

one_more : (x : Value) (n : ℕ) → ◌≡◌ {A = DecResult Value} (ok (x, 1 + n)) (ok (x, suc n))
one_more x n = ground arith

mutual
  unfolding dec_value enc_value dec_u8 dec_tagged dec_many

  dec_value-Reads : {t : Ty} {v : Value} → HasTy t v → Reads (dec_value t) (enc_value t v) v
  dec_value-Reads (bool b) rest = simp (dec_bool-enc_bool b rest)
  dec_value-Reads (u8 x h) rest = refl
  dec_value-Reads (u16 x h) rest = dec_unsigned-Reads _ Value.u16 x h (omega arith) rest
  dec_value-Reads (u32 x h) rest = dec_unsigned-Reads _ Value.u32 x h (omega arith) rest
  dec_value-Reads (u64 x h) rest = simp (dec_varnat-enc_varnat x rest h)
  dec_value-Reads (i8 i h) rest = dec_narrow-Reads _ Value.i8 i h (omega arith) rest
  dec_value-Reads (i16 i h) rest = dec_narrow-Reads _ Value.i16 i h (omega arith) rest
  dec_value-Reads (i32 i h) rest = dec_narrow-Reads _ Value.i32 i h (omega arith) rest
  dec_value-Reads (i64 i h) rest = dec_signed-Reads Value.i64 i h rest
  dec_value-Reads (str s cs n) rest = simp (
    append_assoc,
    dec_varnat-enc_varnat (length s) _ n,
    drop-append,
    dec_chars-Reads s cs,
    length-append {0},
  )
  dec_value-Reads (bytes bs cs n) rest = simp (dec_bytes-enc_bytes bs rest n)
  dec_value-Reads (absent t) rest = refl
  dec_value-Reads (present h) rest =
      dec_payload-Reads opt_some _ _ rest _ (dec_value-Reads h) ∙ one_more _ _
  dec_value-Reads (good e h) rest =
      dec_payload-Reads res_ok _ _ rest _ (dec_value-Reads h) ∙ one_more _ _
  dec_value-Reads (bad t h) rest =
      dec_payload-Reads res_err _ _ rest _ (dec_value-Reads h) ∙ one_more _ _
  dec_value-Reads {v = Value.list xs} (list hs n) rest = simp (
    append_assoc,
    dec_varnat-enc_varnat (length_values xs) _ n,
    drop-append,
    dec_values-Reads hs,
    from_list-to_list,
    length-append {0},
  )

  dec_values-Reads :
      {t : Ty} {xs : Values}
      → AllHave t xs
      → Reads (dec_many (dec_value t) (length_values xs)) (enc_values t xs) (to_list xs)
  dec_values-Reads (none_left t) rest = refl
  dec_values-Reads (and_then h hs) rest =
      simp (append_assoc, dec_value-Reads h, drop-append, dec_values-Reads hs, length-append {0})

-- An encoded value decodes to itself in front of any bytes, and the decoder consumes exactly the
-- bytes of the encoding.
pub dec_value-enc_value :
    {t : Ty} {v : Value} (rest : List ℕ)
    → HasTy t v
    → dec_value t (enc_value t v ++ rest) ≡ ok (v, length (enc_value t v))
dec_value-enc_value rest h = dec_value-Reads h rest
