-- ===== src/Codec/Runs.antt =====
-- The tests of codec.rs, and the theorems at concrete inputs.
use lean_rust_wasm.Prelude.{◌+◌, ◌*◌, ◌%◌, ◌^◌, ◌≡◌, refl, [], ◌∷◌, ◌++◌, length, ok, err, arith}
use lean_rust_wasm.Codec.{
  enc_varnat, dec_varnat, dec_varnat_loop, enc_bytes, enc_envelope, dec_envelope_prefix, torn,
}
use lean_rust_wasm.Codec.Varnat.{dec_varnat-enc_varnat}
use lean_rust_wasm.Codec.Torn.{dec_envelope_prefix_torn, continued, dec_varnat_tenth_digit}

varnat_boundaries : enc_varnat 128 ≡ 0x80 ∷ 0x01 ∷ []
unfolding enc_varnat
varnat_boundaries = refl

dec_varnat_128 : dec_varnat (0x80 ∷ 0x01 ∷ 7 ∷ []) ≡ ok (128, 2)
unfolding dec_varnat dec_varnat_loop
dec_varnat_128 = refl

envelope_golden : enc_envelope 1 42 (9 ∷ 9 ∷ []) ≡ 0x01 ∷ 0x2a ∷ 0x02 ∷ 0x09 ∷ 0x09 ∷ []
unfolding enc_envelope enc_bytes enc_varnat
envelope_golden = refl

dec_varnat-enc_varnat_example :
    dec_varnat (enc_varnat 300 ++ (5 ∷ [])) ≡ ok (300, length (enc_varnat 300))
dec_varnat-enc_varnat_example = dec_varnat-enc_varnat 300 (5 ∷ []) (omega arith)

dec_envelope_prefix_torn_example : dec_envelope_prefix (1 ∷ 42 ∷ 2 ∷ 9 ∷ []) ≡ err torn
dec_envelope_prefix_torn_example =
    dec_envelope_prefix_torn 1 42 (9 ∷ 9 ∷ []) (1 ∷ 42 ∷ 2 ∷ 9 ∷ []) 9 [] (omega arith)
      (omega arith) (omega arith) envelope_golden

dec_varnat_tenth_digit_example :
    dec_varnat (continued 9 5 ++ (3 ∷ [])) ≡ ok (5 + 3 % 2 * 2 ^ 63, 10)
dec_varnat_tenth_digit_example = dec_varnat_tenth_digit 5 3 [] (omega arith) (omega arith)
