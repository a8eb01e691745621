-- ===== src/Prelude/Bits.antt =====
-- Bit operations as arithmetic, where the codec uses them.
use Prim.Native.Nat.{ℕ, zero, suc, ◌+◌, ◌-◌, ◌*◌, ◌/◌, ◌%◌, ◌^◌, ◌≤◌, ◌<◌}
use Prim.Native.Nat.{bit_and, bit_xor, digits, differ, bit_xor-bitwise}
use mathlib.Core.Path.{◌≡◌, refl, ap}
use mathlib.Core.Logic.{inl, inr}
use native.Mathlib.Nat.{le_refl, pow-suc, one-le-pow}
use mathlib.Core.Bool.{Bool, true}
use native.Mathlib.Omega.{arith}
use lean_rust_wasm.Prelude.Tests.{◌==◌, if◌then◌else◌, Bool-cases}

-- How many of the numbers below a bound fail a test.
failures : (ℕ → Bool) → ℕ → ℕ
failures test zero = 0
failures test (suc k) = if test k then failures test k else 1 + failures test k

no_failure : (test : ℕ → Bool) (b bound : ℕ) → b < bound → failures test bound ≡ 0 → test b ≡ true
unfolding failures
no_failure test b zero below none_failed = absurd (omega arith)
no_failure test b (suc k) below none_failed = elim (Bool-cases (test k)) [
  | inl passed ↦ ground (arith, no_failure test b k)
  | inr failed ↦ ground arith
]

abbrev masked : ℕ → Bool
masked b = bit_and b 0x7f == b % 128

bytes_masked : failures masked 256 ≡ 0
unfolding failures
bytes_masked = refl

==→eq : (a b : ℕ) → (a == b) ≡ true → a ≡ b
==→eq a b h = ground arith

-- The low seven bits of a byte.
pub bit_and_low_seven : (b : ℕ) → b < 256 → bit_and b 0x7f ≡ b % 128
bit_and_low_seven b byte = ==→eq _ _ (no_failure masked b 256 byte bytes_masked)

-- Binary digits of an exclusive or, taken with some fuel; any fuel from the left number on will do.
abbrev xor_of : ℕ → ℕ → ℕ → ℕ
xor_of left right fuel = digits (λ y. y) differ fuel left right

xor_of_fuel :
    (left right : ℕ) {f g : ℕ} → left ≤ g → left ≤ f → xor_of left right f ≡ xor_of left right g
xor_of_fuel zero right {f = zero} {g = zero} _ _ = refl
xor_of_fuel zero right {f = suc _} {g = zero} _ _ = refl
xor_of_fuel zero right {f = zero} {g = suc _} _ _ = refl
xor_of_fuel zero right {f = suc _} {g = suc _} _ _ = refl
xor_of_fuel (suc left) right {f = zero} {g} in_g in_f = absurd (omega arith)
xor_of_fuel (suc left) right {f = suc f} {g = zero} in_g in_f = absurd (omega arith)
xor_of_fuel (suc left) right {f = suc f} {g = suc g} in_g in_f =
    rw (xor_of_fuel (suc left / 2) (right / 2) {f = f} {g = g} (omega arith) (omega arith))

zero-bit_xor : (b : ℕ) → bit_xor 0 b ≡ b
zero-bit_xor = bit_xor-bitwise 0

bit_xor_step_suc :
    (a b : ℕ) → bit_xor (suc a) b ≡ bit_xor (suc a / 2) (b / 2) * 2 + differ (suc a % 2) (b % 2)
bit_xor_step_suc a b =
    let half = suc a / 2 in
    let enough : xor_of half (b / 2) a ≡ xor_of half (b / 2) half =
      xor_of_fuel half (b / 2) (le_refl half) (omega arith) in
    omega (arith, enough, bit_xor-bitwise half (b / 2), bit_xor-bitwise (suc a) b)

differ-zero : (x : ℕ) → differ x 0 ≡ x
differ-zero zero = refl
differ-zero (suc x) = refl

differ-one : (x : ℕ) → x < 2 → differ x 1 ≡ 1 - x
differ-one zero h = refl
differ-one (suc zero) h = refl
differ-one (suc (suc x)) h = absurd (omega arith)

-- `x ^ 0` is `x`.
pub bit_xor-zero : (k a : ℕ) → a < 2 ^ k → bit_xor a 0 ≡ a
bit_xor-zero k zero h = refl
bit_xor-zero zero (suc a) h = absurd (omega arith)
bit_xor-zero (suc k) (suc a) h =
    ground (
      arith,
      pow-suc 2 k,
      bit_xor_step_suc a 0,
      differ-zero (suc a % 2),
      bit_xor-zero k (suc a / 2),
    )

-- `x ^ !0` complements `k` bits.
pub bit_xor_ones : (k a : ℕ) → a < 2 ^ k → bit_xor a (2 ^ k - 1) ≡ 2 ^ k - 1 - a
bit_xor_ones k zero h = omega (arith, zero-bit_xor (2 ^ k - 1))
bit_xor_ones zero (suc a) h = absurd (omega arith)
bit_xor_ones (suc k) (suc a) h = omega (
  arith,
  pow-suc 2 k,
  bit_xor_step_suc a (2 ^ suc k - 1),
  ap (λ (t : ℕ). differ (suc a % 2) t) odd,
  differ-one (suc a % 2) (omega arith),
  ap (λ (t : ℕ). bit_xor (suc a / 2) t) half,
  bit_xor_ones k (suc a / 2) (omega (arith, pow-suc 2 k)),
)
  where
    odd : (2 ^ suc k - 1) % 2 ≡ 1
    odd = omega (arith, pow-suc 2 k, one-le-pow k 2)

    half : (2 ^ suc k - 1) / 2 ≡ 2 ^ k - 1
    half = omega (arith, pow-suc 2 k, one-le-pow k 2)
