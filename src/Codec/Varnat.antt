-- ===== src/Codec/Varnat.antt =====
-- `enc_varnat` and `dec_varnat` of codec.rs: the digits that the encoder writes, what the decoder
-- makes of them, and how the decoder behaves on any input.
use Prim.Native.Nat.{bit_and}
use mathlib.Core.WellFounded.{Acc}
use native.Mathlib.Nat.{div-add-mod, pow-suc}
use native.Mathlib.Numerals.{towards_suc}
use lean_rust_wasm.Prelude.{
  ℕ, zero, suc, ◌+◌, ◌*◌, ◌/◌, ◌%◌, ◌^◌, ◌<◌, ◌≤◌, ◌≡◌, ap, List, [], ◌∷◌, ◌++◌, length, All, ok,
  ltb, if◌then◌else◌, arith,
}
use lean_rust_wasm.Prelude.Bits.{bit_and_low_seven}
use lean_rust_wasm.Codec.{
  IsByte, IsU64, enc_varnat_loop, enc_varnat, dec_varnat_loop, dec_varnat, lt_wf,
}

-- The base-128 digits of `n`, lowest first, for `n` below `128 ^ (k + 1)`.
pub leb128 : ℕ → ℕ → List ℕ
leb128 zero n = n ∷ []
leb128 (suc k) n =
    let rest = leb128 k (n / 128) in if ltb n 128 then n ∷ [] else (128 + n % 128) ∷ rest

enc_varnat_loop-leb128 :
    (k n : ℕ) (w : Acc ◌<◌ n) → n < 128 ^ suc k → enc_varnat_loop n w ≡ leb128 k n
unfolding enc_varnat_loop leb128
enc_varnat_loop-leb128 zero n (Acc.intro _ smaller) h = ground arith
enc_varnat_loop-leb128 (suc k) n (Acc.intro _ smaller) h = grind (
  arith,
  λ (w : Acc ◌<◌ (n / 128)).
      enc_varnat_loop-leb128 k (n / 128) w (omega (arith, pow-suc 128 (suc k))),
)

pub enc_varnat-leb128 : (n : ℕ) → IsU64 n → enc_varnat n ≡ leb128 9 n
unfolding enc_varnat
enc_varnat-leb128 n h = enc_varnat_loop-leb128 9 n (lt_wf.apply n) (omega arith)

leb128-IsByte : (k n : ℕ) → n < 128 ^ suc k → All IsByte (leb128 k n)
unfolding leb128
leb128-IsByte zero n h = omega arith
leb128-IsByte (suc k) n h = ground (arith, pow-suc 128 (suc k), leb128-IsByte k (n / 128))

length-leb128 : (k n : ℕ) → (1 ≤ length (leb128 k n)) × (length (leb128 k n) ≤ k + 1)
unfolding leb128
length-leb128 zero n = omega arith
length-leb128 (suc k) n = ground (arith, length-leb128 k (n / 128))

-- The encoding of a u64 has 1 to 10 elements, and each is a byte.
pub enc_varnat_shape :
    (n : ℕ)
    → IsU64 n
    → All IsByte (enc_varnat n) × (1 ≤ length (enc_varnat n)) × (length (enc_varnat n) ≤ 10)
enc_varnat_shape n h =
    let (lo, hi) = length-leb128 9 n in
    rw (enc_varnat-leb128 n h) (leb128-IsByte 9 n (omega arith), lo, hi)

-- One round of the decoder: on a last digit, and on a digit with the continuation bit over `g`.
last_digit :
    (w i acc shift : ℕ) (rest : List ℕ)
    → w < 128
    → i ≤ 9
    → shift < 64
    → IsU64 (acc + w * 2 ^ shift)
    → dec_varnat_loop (w ∷ rest) i acc shift ≡ ok (acc + w * 2 ^ shift, i + 1)
unfolding dec_varnat_loop
last_digit w i acc shift rest hw hi hs fits = ground (arith, bit_and_low_seven w)

pub inner_digit :
    (g i acc shift : ℕ) (rest : List ℕ)
    → g < 128
    → i ≤ 9
    → shift < 64
    → IsU64 (acc + g * 2 ^ shift)
    → dec_varnat_loop ((128 + g) ∷ rest) i acc shift
      ≡ dec_varnat_loop rest (i + 1) (acc + g * 2 ^ shift) (shift + 7)
unfolding dec_varnat_loop
inner_digit g i acc shift rest hg hi hs fits = ground (arith, bit_and_low_seven (128 + g))

two_pow_add_seven : (s : ℕ) → 2 ^ (s + 7) ≡ 128 * 2 ^ s
two_pow_add_seven s = simp towards_suc (omega arith)

-- The lowest digit of `n` and the rest, both shifted by `s`.
pub split_digit : (n s : ℕ) → n * 2 ^ s ≡ n % 128 * 2 ^ s + n / 128 * 2 ^ (s + 7)
split_digit n s = omega (
  arith,
  ap (λ (t : ℕ). t * 2 ^ s) (div-add-mod n 128),
  ap (λ (t : ℕ). n / 128 * t) (two_pow_add_seven s),
)

dec_varnat_loop-leb128 :
    (k n i acc shift : ℕ) (rest : List ℕ)
    → n < 128 ^ suc k
    → i + k ≤ 9
    → shift ≡ 7 * i
    → IsU64 (acc + n * 2 ^ shift)
    → dec_varnat_loop (leb128 k n ++ rest) i acc shift
      ≡ ok (acc + n * 2 ^ shift, i + length (leb128 k n))
unfolding leb128
dec_varnat_loop-leb128 zero n i acc shift rest hn hi hs fits =
    last_digit n i acc shift rest hn (omega arith) (omega arith) fits
dec_varnat_loop-leb128 (suc k) n i acc shift rest hn hi hs fits = ground (
  arith,
  pow-suc 128 (suc k),
  split_digit n shift,
  last_digit n i acc shift rest,
  inner_digit (n % 128) i acc shift (leb128 k (n / 128) ++ rest),
  dec_varnat_loop-leb128 k (n / 128) (i + 1) (acc + n % 128 * 2 ^ shift) (shift + 7) rest,
)

-- The strict decoder reads back the u64 that was encoded, whatever follows it, and reports as
-- consumed exactly the bytes of the encoding.
pub dec_varnat-enc_varnat :
    (n : ℕ) (rest : List ℕ)
    → IsU64 n
    → dec_varnat (enc_varnat n ++ rest) ≡ ok (n, length (enc_varnat n))
unfolding dec_varnat
dec_varnat-enc_varnat n rest h =
    rw (enc_varnat-leb128 n h) (ground (arith, dec_varnat_loop-leb128 9 n 0 0 0 rest))

dec_varnat_loop_takes :
    (bs : List ℕ) (i acc shift n used : ℕ)
    → dec_varnat_loop bs i acc shift ≡ ok (n, used)
    → i ≤ 10
    → IsU64 n × (i < used) × (used ≤ i + length bs) × (used ≤ 10)
unfolding dec_varnat_loop
dec_varnat_loop_takes [] i acc shift n used e h = cc
dec_varnat_loop_takes (b ∷ bs) i acc shift n used e h = ground (
  arith,
  dec_varnat_loop_takes bs (i + 1) (acc + bit_and b 0x7f * 2 ^ shift % 2 ^ 64) (shift + 7) n used,
)

-- On any input, an accepted number is a u64, and 1 to 10 of the bytes at hand are consumed.
pub dec_varnat_takes :
    (bs : List ℕ) (n used : ℕ)
    → dec_varnat bs ≡ ok (n, used)
    → IsU64 n × (0 < used) × (used ≤ length bs) × (used ≤ 10)
unfolding dec_varnat
dec_varnat_takes bs n used e = ground (arith, dec_varnat_loop_takes bs 0 0 0 n used)
