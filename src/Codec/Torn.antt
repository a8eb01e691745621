-- ===== src/Codec/Torn.antt =====
-- The two ends of the decoders of codec.rs: a cut envelope, and a varint past the width of a u64.
use native.Mathlib.Nat.{pow-suc}
use lean_rust_wasm.Prelude.{
  ℕ, zero, suc, ◌+◌, ◌*◌, ◌/◌, ◌%◌, ◌^◌, ◌<◌, ◌≤◌, ◌≡◌, refl, List, [], ◌∷◌, ◌++◌, length,
  append-nil, ok, err, arith,
}
use lean_rust_wasm.Prelude.Bits.{bit_and_low_seven}
use lean_rust_wasm.Codec.{
  torn, IsU64, dec_varnat_loop, dec_varnat, enc_envelope, dec_envelope_prefix,
}
use lean_rust_wasm.Codec.Varnat.{inner_digit, split_digit}
use lean_rust_wasm.Codec.Stable.{torn_of_proper_prefix}
use lean_rust_wasm.Codec.RoundTrip.{dec_envelope_prefix-IsStable, dec_envelope_prefix-enc_envelope}

-- Every proper prefix of an encoded envelope is reported as torn: never as corrupt, and never as
-- another envelope.
pub dec_envelope_prefix_torn :
    (version fingerprint : ℕ) (payload front : List ℕ) (x : ℕ) (back : List ℕ)
    → IsU64 version
    → IsU64 fingerprint
    → IsU64 (length payload)
    → enc_envelope version fingerprint payload ≡ front ++ (x ∷ back)
    → dec_envelope_prefix front ≡ err torn
dec_envelope_prefix_torn version fingerprint payload front x back hv hf hp e =
    let whole = dec_envelope_prefix-enc_envelope version fingerprint payload [] hv hf hp in
    torn_of_proper_prefix dec_envelope_prefix-IsStable _ x front back (rw (append-nil, e) at whole)
      refl

-- `k` digits of `n`, each with the continuation bit.
pub continued : ℕ → ℕ → List ℕ
continued zero n = []
continued (suc k) n = (128 + n % 128) ∷ continued k (n / 128)

zero_of_lt : (n : ℕ) → n < 128 ^ 0 → n ≡ 0
zero_of_lt n h = omega arith

tenth_digit :
    (d acc : ℕ) (rest : List ℕ)
    → acc < 2 ^ 63
    → d < 128
    → dec_varnat_loop (d ∷ rest) 9 acc 63 ≡ ok (acc + d % 2 * 2 ^ 63, 10)
unfolding dec_varnat_loop
tenth_digit d acc rest ha hd = ground (arith, bit_and_low_seven d)

dec_varnat_loop-continued :
    (k n i acc shift : ℕ) (rest : List ℕ)
    → n < 128 ^ k
    → i + k ≤ 9
    → shift ≡ 7 * i
    → IsU64 (acc + n * 2 ^ shift)
    → dec_varnat_loop (continued k n ++ rest) i acc shift
      ≡ dec_varnat_loop rest (i + k) (acc + n * 2 ^ shift) (shift + 7 * k)
unfolding continued
dec_varnat_loop-continued zero n i acc shift rest hn hi hs fits = ground (arith, zero_of_lt n hn)
dec_varnat_loop-continued (suc k) n i acc shift rest hn hi hs fits = ground (
  arith,
  pow-suc 128 k,
  split_digit n shift,
  inner_digit (n % 128) i acc shift (continued k (n / 128) ++ rest),
  dec_varnat_loop-continued k (n / 128) (i + 1) (acc + n % 128 * 2 ^ shift) (shift + 7) rest,
)

-- Of a tenth digit only the lowest bit counts: the bits past the 64th are dropped, and no digit is
-- refused as an overflow.
pub dec_varnat_tenth_digit :
    (n d : ℕ) (rest : List ℕ)
    → n < 2 ^ 63
    → d < 128
    → dec_varnat (continued 9 n ++ (d ∷ rest)) ≡ ok (n + d % 2 * 2 ^ 63, 10)
unfolding dec_varnat
dec_varnat_tenth_digit n d rest hn hd =
    ground (arith, dec_varnat_loop-continued 9 n 0 0 0 (d ∷ rest), tenth_digit d n rest)
