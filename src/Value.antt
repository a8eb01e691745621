-- ===== src/Value.antt =====
-- Schema-typed values and their codec, crates/wasm-delta/src/value.rs. A `String` is the list of its
-- code points, a signed integer an element of ℤ.
pub mod Zigzag
pub mod HasTy
pub mod RoundTrip
pub mod Decode
pub mod Decoded
mod Runs
use Prim.Native.Nat.{bit_xor}
use lean_rust_wasm.Prelude.{
  ℕ, zero, suc, ◌+◌, ◌-◌, ◌*◌, ◌/◌, ◌%◌, ◌^◌, ◌<◌, ◌≤◌, List, [], ◌∷◌, ◌++◌, length, drop, Bool,
  true, false, ◌&&◌, ◌||◌, Option, none, some, Result, ok, err, ◌>>=◌, ok_or, to_option, ltb, leb,
  ◌==◌, if◌then◌else◌,
}
use lean_rust_wasm.Prelude.Int.{ℤ, pos, negsuc}
use lean_rust_wasm.Codec.{
  DecResult, DecFail, torn, corrupt, enc_varnat, dec_varnat, enc_bool, dec_bool, enc_bytes,
  dec_bytes,
}

pub data Ty : Type 0 where
  bool u8 u16 u32 u64 i8 i16 i32 i64 str bytes : Ty
  opt : Ty → Ty
  res : Ty → Ty → Ty
  list : Ty → Ty

-- `Opt(None)`, `Opt(Some(x))`, `Res(Ok(x))` and `Res(Err(e))` are a constructor each, and a
-- `Vec<Value>` inside a value is a `Values`.
mutual
  pub data Value : Type 0 where
    bool : Bool → Value
    u8 u16 u32 u64 : ℕ → Value
    i8 i16 i32 i64 : ℤ → Value
    str bytes : List ℕ → Value
    opt_none : Value
    opt_some res_ok res_err : Value → Value
    list : Values → Value

  pub data Values : Type 0 where
    nil : Values
    cons : Value → Values → Values

abbrev pub length_values : Values → ℕ
length_values nil = 0
length_values (cons x xs) = suc (length_values xs)

abbrev pub from_list : List Value → Values
from_list [] = nil
from_list (x ∷ xs) = cons x (from_list xs)

abbrev pub to_list : Values → List Value
to_list nil = []
to_list (cons x xs) = x ∷ to_list xs

-- The two's complement pattern of an integer in a word of `modulus` values.
unfoldable pub word_of : ℕ → ℤ → ℕ
word_of modulus (pos n) = n % modulus
word_of modulus (negsuc n) = modulus - 1 - n % modulus

-- `(i << 1) ^ (i >> 63)` on an i64, as a u64; the arithmetic shift copies the sign bit.
unfoldable pub zigzag : ℤ → ℕ
zigzag i =
    let bits = word_of (2 ^ 64) i in
    bit_xor (bits * 2 % 2 ^ 64) (if ltb bits (2 ^ 63) then 0 else 2 ^ 64 - 1)

unfoldable pub i64_try_from : ℕ → Option ℤ
i64_try_from n = if ltb n (2 ^ 63) then some (pos n) else none

-- `-h - 1`
unfoldable pub neg_sub_one : ℤ → ℤ
neg_sub_one (pos n) = negsuc n
neg_sub_one (negsuc n) = pos n

unfoldable pub unzigzag : ℕ → ℤ
unzigzag n =
    if n % 2 == 0
    then elim (i64_try_from (n / 2)) [ some h ↦ h | none ↦ pos (2 ^ 63 - 1) ]
    else elim (i64_try_from (n / 2)) [ some h ↦ neg_sub_one h | none ↦ negsuc (2 ^ 63 - 1) ]

-- `i as i8`, `as i16`, `as i32`: the low bits of `i`, read as a signed word whose least value is
-- `-half`.
unfoldable pub as_signed : ℕ → ℤ → ℤ
as_signed half i =
    let bits = word_of (2 * half) i in
    if ltb bits half then pos bits else negsuc (2 * half - 1 - bits)

-- `char::from_u32`, after `u32::try_from`
unfoldable pub char_from : ℕ → Option ℕ
char_from cp =
    if ltb cp (2 ^ 32) && (ltb cp 0xd800 || (leb 0xe000 cp && ltb cp 0x110000))
    then some cp
    else none

unfoldable mutual
  pub value_ty_matches : Ty → Value → Bool
  value_ty_matches Ty.bool (Value.bool b) = true
  value_ty_matches Ty.u8 (Value.u8 x) = true
  value_ty_matches Ty.u16 (Value.u16 x) = true
  value_ty_matches Ty.u32 (Value.u32 x) = true
  value_ty_matches Ty.u64 (Value.u64 x) = true
  value_ty_matches Ty.i8 (Value.i8 x) = true
  value_ty_matches Ty.i16 (Value.i16 x) = true
  value_ty_matches Ty.i32 (Value.i32 x) = true
  value_ty_matches Ty.i64 (Value.i64 x) = true
  value_ty_matches Ty.str (Value.str s) = true
  value_ty_matches Ty.bytes (Value.bytes bs) = true
  value_ty_matches (Ty.opt t) opt_none = true
  value_ty_matches (Ty.opt t) (opt_some x) = value_ty_matches t x
  value_ty_matches (Ty.res good bad) (res_ok x) = value_ty_matches good x
  value_ty_matches (Ty.res good bad) (res_err e) = value_ty_matches bad e
  value_ty_matches (Ty.list t) (Value.list xs) = all_match t xs
  value_ty_matches _ _ = false

  pub all_match : Ty → Values → Bool
  all_match t nil = true
  all_match t (cons x xs) = value_ty_matches t x && all_match t xs

unfoldable pub enc_chars : List ℕ → List ℕ
enc_chars [] = []
enc_chars (c ∷ cs) = enc_varnat c ++ enc_chars cs

-- The mismatched pairs are the `debug_assert!(false)` arm, which appends nothing in a release build.
unfoldable mutual
  pub enc_value : Ty → Value → List ℕ
  enc_value Ty.bool (Value.bool b) = enc_bool b
  enc_value Ty.u8 (Value.u8 x) = x ∷ []
  enc_value Ty.u16 (Value.u16 x) = enc_varnat x
  enc_value Ty.u32 (Value.u32 x) = enc_varnat x
  enc_value Ty.u64 (Value.u64 x) = enc_varnat x
  enc_value Ty.i8 (Value.i8 x) = enc_varnat (zigzag x)
  enc_value Ty.i16 (Value.i16 x) = enc_varnat (zigzag x)
  enc_value Ty.i32 (Value.i32 x) = enc_varnat (zigzag x)
  enc_value Ty.i64 (Value.i64 x) = enc_varnat (zigzag x)
  enc_value Ty.str (Value.str s) = enc_varnat (length s) ++ enc_chars s
  enc_value Ty.bytes (Value.bytes bs) = enc_bytes bs
  enc_value (Ty.opt t) opt_none = 0 ∷ []
  enc_value (Ty.opt t) (opt_some x) = 1 ∷ enc_value t x
  enc_value (Ty.res good bad) (res_ok x) = 0 ∷ enc_value good x
  enc_value (Ty.res good bad) (res_err e) = 1 ∷ enc_value bad e
  enc_value (Ty.list t) (Value.list xs) = enc_varnat (length_values xs) ++ enc_values t xs
  enc_value _ _ = []

  pub enc_values : Ty → Values → List ℕ
  enc_values t nil = []
  enc_values t (cons x xs) = enc_value t x ++ enc_values t xs

-- `for _ in 0..count`: each round decodes one item at the bytes that the last one left.
unfoldable pub dec_many {ℓ} :
    {A : Type ℓ} → (List ℕ → DecResult A) → ℕ → List ℕ → DecResult (List A)
dec_many d zero bs = ok ([], 0)
dec_many d (suc n) bs = do
  (x, used) ← d bs
  (xs, u) ← dec_many d n (drop used bs)
  ok (x ∷ xs, used + u)

unfoldable pub dec_char : List ℕ → DecResult ℕ
dec_char bs = do (cp, used) ← dec_varnat bs; c ← ok_or (char_from cp) corrupt; ok (c, used)

-- `u16::try_from(n).map_err(|_| Corrupt)`
unfoldable pub narrow : ℕ → ℕ → Result DecFail ℕ
narrow bound n = if ltb n bound then ok n else err corrupt

unfoldable pub dec_unsigned : ℕ → (ℕ → Value) → List ℕ → DecResult Value
dec_unsigned bound make bs = do (n, u) ← dec_varnat bs; x ← narrow bound n; ok (make x, u)

unfoldable pub dec_signed : (ℤ → Value) → List ℕ → DecResult Value
dec_signed make bs = do (n, u) ← dec_varnat bs; ok (make (unzigzag n), u)

-- The tag byte of `Opt` and `Res`, and what follows each of its two values.
unfoldable pub dec_tagged :
    (List ℕ → DecResult Value) → (List ℕ → DecResult Value) → List ℕ → DecResult Value
dec_tagged zero_arm one_arm [] = err torn
dec_tagged zero_arm one_arm (tag ∷ bs) =
    if tag == 0 then zero_arm bs else if tag == 1 then one_arm bs else err corrupt

unfoldable pub dec_payload : (Value → Value) → (List ℕ → DecResult Value) → List ℕ → DecResult Value
dec_payload make d bs = do (x, used) ← d bs; ok (make x, 1 + used)

unfoldable pub dec_u8 : List ℕ → DecResult Value
dec_u8 [] = err torn
dec_u8 (x ∷ bs) = ok (Value.u8 x, 1)

unfoldable pub dec_value : Ty → List ℕ → DecResult Value
dec_value Ty.bool bs = do (b, u) ← dec_bool bs; ok (Value.bool b, u)
dec_value Ty.u8 bs = dec_u8 bs
dec_value Ty.u16 bs = dec_unsigned (2 ^ 16) Value.u16 bs
dec_value Ty.u32 bs = dec_unsigned (2 ^ 32) Value.u32 bs
dec_value Ty.u64 bs = do (n, u) ← dec_varnat bs; ok (Value.u64 n, u)
dec_value Ty.i8 bs = dec_signed (λ i. Value.i8 (as_signed (2 ^ 7) i)) bs
dec_value Ty.i16 bs = dec_signed (λ i. Value.i16 (as_signed (2 ^ 15) i)) bs
dec_value Ty.i32 bs = dec_signed (λ i. Value.i32 (as_signed (2 ^ 31) i)) bs
dec_value Ty.i64 bs = dec_signed Value.i64 bs
dec_value Ty.str bs = do
  (count, u) ← dec_varnat bs
  (s, used) ← dec_many dec_char count (drop u bs)
  ok (Value.str s, u + used)
dec_value Ty.bytes bs = do (payload, u) ← dec_bytes bs; ok (Value.bytes payload, u)
dec_value (Ty.opt t) bs =
    dec_tagged (λ rest. ok (opt_none, 1)) (dec_payload opt_some (dec_value t)) bs
dec_value (Ty.res good bad) bs =
    dec_tagged (dec_payload res_ok (dec_value good)) (dec_payload res_err (dec_value bad)) bs
dec_value (Ty.list t) bs = do
  (count, u) ← dec_varnat bs
  (xs, used) ← dec_many (dec_value t) count (drop u bs)
  ok (Value.list (from_list xs), u + used)

-- The public forms.
unfoldable pub encode_value : Ty → Value → List ℕ
encode_value ty v = enc_value ty v

unfoldable pub decode_value : Ty → List ℕ → Option (Value × ℕ)
decode_value ty bs = to_option (dec_value ty bs)
