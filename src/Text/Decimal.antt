-- ===== src/Text/Decimal.antt =====
-- Numbers in decimal: `{}` of a `u64` or a `usize`, and `str::parse` back.
use lean_rust_wasm.Prelude.{
  ℕ, zero, suc, ◌+◌, ◌*◌, ◌-◌, ◌/◌, ◌%◌, ◌^◌, ◌<◌, ◌≡◌, refl, [], ◌∷◌, ◌++◌, true, Option, none,
  some, ◌==◌, ltb, if◌then◌else◌, arith, ap, ◌∙◌, sym, Bool-cases, inl, inr,
}
use lean_rust_wasm.Text.{Text, every, is_digit}
use lean_rust_wasm.Text.Cuts.{every-append}

-- The digits of `n`, at most `k + 1` of them.
abbrev pub digits : ℕ → ℕ → Text
digits zero n = (48 + n % 10) ∷ []
digits (suc k) n =
    let front = digits k (n / 10) in if ltb n 10 then (48 + n) ∷ [] else front ++ (48 + n % 10) ∷ []

-- Twenty digits hold every 64-bit number.
unfoldable pub decimal : ℕ → Text
decimal n = digits 19 n

abbrev pub number : ℕ → Text → ℕ
number acc [] = acc
number acc (c ∷ cs) = number (acc * 10 + (c - 48)) cs

abbrev pub parse_digits : Text → Option ℕ
parse_digits [] = none
parse_digits (c ∷ cs) =
    if every is_digit (c ∷ cs)
    then (if ltb (number 0 (c ∷ cs)) (2 ^ 64) then some (number 0 (c ∷ cs)) else none)
    else none

-- `parse::<u64>` and, on the 64-bit hosts, `parse::<usize>`: an optional `+`, then digits.
unfoldable pub parse_u64 : Text → Option ℕ
parse_u64 [] = none
parse_u64 (c ∷ cs) = if c == 43 then parse_digits cs else parse_digits (c ∷ cs)

abbrev bound : ℕ → ℕ
bound zero = 10
bound (suc k) = 10 * bound k

number-append : (a : ℕ) (t : Text) (c : ℕ) → number a (t ++ c ∷ []) ≡ number a t * 10 + (c - 48)
number-append a [] c = refl
number-append a (x ∷ t) c = number-append (a * 10 + (x - 48)) t c

number-digits : (k n : ℕ) → n < bound k → number 0 (digits k n) ≡ n
number-digits zero n h = ground arith
number-digits (suc k) n h = ground (
  arith,
  number-digits k (n / 10) (omega arith),
  number-append 0 (digits k (n / 10)) (48 + n % 10),
)

every-digits : (k n : ℕ) → every is_digit (digits k n) ≡ true
every-digits zero n = ground arith
every-digits (suc k) n = ground (
  arith,
  every-append is_digit (digits k (n / 10)) ((48 + n % 10) ∷ []) (every-digits k (n / 10)),
)

pub decimal-digits : (n : ℕ) → every is_digit (decimal n) ≡ true
unfolding decimal
decimal-digits n = every-digits 19 n

digits_some : (k n : ℕ) → (c : ℕ) × (cs : Text) × (digits k n ≡ c ∷ cs)
digits_some zero n = (48 + n % 10, [], refl)
digits_some (suc k) n =
    let (c, cs, e) = digits_some k (n / 10) in
    elim (Bool-cases (ltb n 10)) [
      | inl few ↦ (48 + n, [], cc (few))
      | inr many ↦ (c, cs ++ (48 + n % 10) ∷ [], cc (many, e))
    ]

-- A decimal is not empty.
pub decimal_starts : (n : ℕ) → (c : ℕ) × (cs : Text) × (decimal n ≡ c ∷ cs)
unfolding decimal
decimal_starts n = digits_some 19 n

parse_u64_reads :
    (c : ℕ) (cs : Text) (n : ℕ)
    → every is_digit (c ∷ cs) ≡ true
    → number 0 (c ∷ cs) ≡ n
    → n < 2 ^ 64
    → parse_u64 (c ∷ cs) ≡ some n
unfolding parse_u64
parse_u64_reads c cs n hd hn h = ground arith

-- A 64-bit number parses back from its decimal.
pub parse_u64-decimal : (n : ℕ) → n < 2 ^ 64 → parse_u64 (decimal n) ≡ some n
unfolding decimal
parse_u64-decimal n h =
    let (c, cs, e) = digits_some 19 n in
    rw e (
      parse_u64_reads c cs n (ap (every is_digit) (sym e) ∙ every-digits 19 n)
        (ap (number 0) (sym e) ∙ number-digits 19 n (omega arith)) h)
