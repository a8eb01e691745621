-- ===== src/Value/Runs.antt =====
-- The tests of value.rs, and the theorems at concrete inputs.
use lean_rust_wasm.Prelude.{◌≡◌, refl, [], ◌∷◌, ◌++◌, length, ok, err, arith}
use lean_rust_wasm.Prelude.Int.{negsuc}
use lean_rust_wasm.Codec.{torn, enc_varnat, dec_varnat, dec_varnat_loop, enc_bool}
use lean_rust_wasm.Value.{
  Ty, Value, nil, cons, opt_some, zigzag, unzigzag, i64_try_from, neg_sub_one, word_of, enc_value,
  dec_value, as_signed, dec_signed,
}
use lean_rust_wasm.Value.HasTy.{HasTy, AllHave}
use lean_rust_wasm.Value.RoundTrip.{dec_value-enc_value}
use lean_rust_wasm.Value.Decode.{dec_value_torn}
use lean_rust_wasm.Value.Decoded.{dec_value-HasTy}

-- A present list with one signed number.
abbrev numbers : Value
numbers = opt_some (Value.list (cons (Value.i32 (negsuc 0)) nil))

numbers-HasTy : HasTy (Ty.opt (Ty.list Ty.i32)) numbers
numbers-HasTy = HasTy.present (
    HasTy.list (AllHave.and_then (HasTy.i32 (negsuc 0) (omega arith)) (AllHave.none_left Ty.i32))
      (omega arith))

numbers_bytes : enc_value (Ty.opt (Ty.list Ty.i32)) numbers ≡ 1 ∷ 1 ∷ 1 ∷ []
unfolding enc_value enc_varnat zigzag enc_bool word_of
numbers_bytes = refl

-- A number past the range of an i8 is wrapped.
i8_wraps : dec_value Ty.i8 (0x80 ∷ 0x02 ∷ []) ≡ ok (Value.i8 (negsuc 127), 2)
unfolding dec_value dec_varnat dec_varnat_loop unzigzag i64_try_from neg_sub_one as_signed word_of
    dec_signed
i8_wraps = refl

dec_value-enc_value_example :
    dec_value (Ty.opt (Ty.list Ty.i32)) (enc_value (Ty.opt (Ty.list Ty.i32)) numbers ++ (9 ∷ []))
    ≡ ok (numbers, length (enc_value (Ty.opt (Ty.list Ty.i32)) numbers))
dec_value-enc_value_example = dec_value-enc_value (9 ∷ []) numbers-HasTy

dec_value_torn_example : dec_value (Ty.opt (Ty.list Ty.i32)) (1 ∷ 1 ∷ []) ≡ err torn
dec_value_torn_example = dec_value_torn 1 (1 ∷ 1 ∷ []) [] numbers-HasTy numbers_bytes

dec_value-HasTy_example : HasTy Ty.i8 (Value.i8 (negsuc 127))
dec_value-HasTy_example =
    dec_value-HasTy Ty.i8 (0x80 ∷ 0x02 ∷ []) (Value.i8 (negsuc 127)) 2
      (omega arith, (omega arith, tt)) i8_wraps
