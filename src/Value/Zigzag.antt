-- ===== src/Value/Zigzag.antt =====
-- The signed integers of value.rs: zigzag as arithmetic, its inverse, and the narrowing casts.
use native.Mathlib.Nat.{mod-eq_of_lt}
use lean_rust_wasm.Prelude.{ℕ, ◌+◌, ◌-◌, ◌*◌, ◌/◌, ◌%◌, ◌^◌, ◌<◌, ◌≡◌, arith}
use lean_rust_wasm.Prelude.Int.{ℤ, pos, negsuc, InRange}
use lean_rust_wasm.Prelude.Bits.{bit_xor-zero, bit_xor_ones}
use lean_rust_wasm.Codec.{IsU64}
use lean_rust_wasm.Value.{word_of, zigzag, unzigzag, i64_try_from, neg_sub_one, as_signed}

pub zigzag-pos : (n : ℕ) → n < 2 ^ 63 → zigzag (pos n) ≡ 2 * n
unfolding zigzag word_of
zigzag-pos n h = ground (arith, bit_xor-zero 64 (n % 2 ^ 64 * 2 % 2 ^ 64))

pub zigzag-negsuc : (n : ℕ) → n < 2 ^ 63 → zigzag (negsuc n) ≡ 2 * n + 1
unfolding zigzag word_of
zigzag-negsuc n h = ground (arith, bit_xor_ones 64 ((2 ^ 64 - 1 - n % 2 ^ 64) * 2 % 2 ^ 64))

pub zigzag-IsU64 : (i : ℤ) → InRange (2 ^ 63) i → IsU64 (zigzag i)
zigzag-IsU64 (pos n) h = omega (arith, zigzag-pos n h)
zigzag-IsU64 (negsuc n) h = omega (arith, zigzag-negsuc n h)

unzigzag_even : (n : ℕ) → n < 2 ^ 63 → unzigzag (2 * n) ≡ pos n
unfolding unzigzag i64_try_from
unzigzag_even n h = ground arith

unzigzag_odd : (n : ℕ) → n < 2 ^ 63 → unzigzag (2 * n + 1) ≡ negsuc n
unfolding unzigzag i64_try_from neg_sub_one
unzigzag_odd n h = ground arith

-- Every i64 comes back from its zigzag form.
pub unzigzag-zigzag : (i : ℤ) → InRange (2 ^ 63) i → unzigzag (zigzag i) ≡ i
unzigzag-zigzag (pos n) h = rw (zigzag-pos n h) (unzigzag_even n h)
unzigzag-zigzag (negsuc n) h = rw (zigzag-negsuc n h) (unzigzag_odd n h)

pub unzigzag-InRange : (n : ℕ) → IsU64 n → InRange (2 ^ 63) (unzigzag n)
unfolding unzigzag i64_try_from neg_sub_one
unzigzag-InRange n h = ground arith

-- Every u64 is the zigzag form of what it decodes to.
pub zigzag-unzigzag : (n : ℕ) → IsU64 n → zigzag (unzigzag n) ≡ n
unfolding unzigzag i64_try_from neg_sub_one
zigzag-unzigzag n h = ground (arith, zigzag-pos (n / 2), zigzag-negsuc (n / 2))

-- A narrowing cast keeps what is in range, and its result is always in range.
pub as_signed_self : (half : ℕ) (i : ℤ) → InRange half i → as_signed half i ≡ i
unfolding as_signed word_of
as_signed_self half (pos n) h =
    let small : n % (2 * half) ≡ n = mod-eq_of_lt (omega arith) in ground arith
as_signed_self half (negsuc n) h =
    let small : n % (2 * half) ≡ n = mod-eq_of_lt (omega arith) in ground arith

pub as_signed-InRange : (half : ℕ) (i : ℤ) → 0 < half → InRange half (as_signed half i)
unfolding as_signed word_of
as_signed-InRange half (pos n) h = ground arith
as_signed-InRange half (negsuc n) h = ground arith
