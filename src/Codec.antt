-- ===== src/Codec.antt =====
-- The wire codec, crates/wasm-delta/src/codec.rs. A byte slice is a list of numbers, and an encoder
-- returns the bytes that the source's function appends to `out`.
pub mod Varnat
pub mod Stable
pub mod RoundTrip
pub mod Torn
mod Runs
use Prim.Native.Nat.{bit_and}
use mathlib.Core.Logic.{dite}
use mathlib.Core.WellFounded.{Acc, WellFounded}
use native.Mathlib.Decide.{dec_lt}
use lean_rust_wasm.Prelude.{
  ℕ, zero, suc, ◌+◌, ◌*◌, ◌/◌, ◌%◌, ◌^◌, ◌<◌, ◌≤◌, List, [], ◌∷◌, ◌++◌, length, drop, take, Bool,
  true, false, Result, ok, err, ◌>>=◌, ltb, leb, ◌==◌, if◌then◌else◌, arith,
}

pub data DecFail : Type 0 where
  torn corrupt : DecFail

-- The decoded item and the number of bytes consumed.
abbrev pub DecResult {ℓ} : Type ℓ → Type ℓ
DecResult A = Result DecFail (A × ℕ)

abbrev pub IsByte : ℕ → Type 0
IsByte b = b < 256

abbrev pub IsU64 : ℕ → Type 0
IsU64 n = n < 2 ^ 64

abbrev pub varnat_max_bytes : ℕ
varnat_max_bytes = 10

Acc-below : (k n : ℕ) → n < k → Acc ◌<◌ n
Acc-below zero n h = elim h [ ]
Acc-below (suc k) n h = Acc.intro n (λ m hm. Acc-below k m (omega arith))

unfoldable pub lt_wf : WellFounded ◌<◌
unfolding Acc-below
lt_wf = record { apply = λ n. Acc-below (suc n) n (omega arith) }

pub div_shrinks : (n : ℕ) → ¬ (n < 128) → n / 128 < n
div_shrinks n h = omega arith

enc_varnat_loop : (n : ℕ) → Acc ◌<◌ n → List ℕ
enc_varnat_loop n (Acc.intro _ smaller) =
    dite (dec_lt n 128) (λ _. n ∷ [])
      (λ more. (128 + n % 128) ∷ enc_varnat_loop (n / 128) (smaller (n / 128) (div_shrinks n more)))

unfoldable pub enc_varnat : ℕ → List ℕ
unfolding enc_varnat_loop lt_wf dec_lt
enc_varnat n = enc_varnat_loop n (lt_wf.apply n)

-- `digit.checked_shl(shift)` is none from a shift of 64 on, and drops the bits that leave the word;
-- `acc.checked_add` is none on a carry.
unfoldable pub dec_varnat_loop : List ℕ → ℕ → ℕ → ℕ → DecResult ℕ
dec_varnat_loop [] i acc shift = err torn
dec_varnat_loop (b ∷ bs) i acc shift =
    let digit = bit_and b 0x7f in
    let shifted = digit * 2 ^ shift % 2 ^ 64 in
    let more = dec_varnat_loop bs (i + 1) (acc + shifted) (shift + 7) in
    if i == varnat_max_bytes
    then err corrupt
    else if leb 64 shift
    then err corrupt
    else if leb (2 ^ 64) (acc + shifted)
    then err corrupt
    else if ltb b 128
    then ok (acc + shifted, i + 1)
    else more

unfoldable pub dec_varnat : List ℕ → DecResult ℕ
dec_varnat bs = dec_varnat_loop bs 0 0 0

unfoldable pub enc_bool : Bool → List ℕ
enc_bool b = if b then 1 ∷ [] else 0 ∷ []

unfoldable pub dec_bool : List ℕ → DecResult Bool
dec_bool [] = err torn
dec_bool (b ∷ bs) = if b == 0 then ok (false, 1) else if b == 1 then ok (true, 1) else err corrupt

unfoldable pub enc_bytes : List ℕ → List ℕ
enc_bytes payload = enc_varnat (length payload) ++ payload

-- `usize` is 64 bits wide, so its `try_from` of a u64 does not fail.
unfoldable pub dec_bytes : List ℕ → DecResult (List ℕ)
dec_bytes bs = do
  (n, used) ← dec_varnat bs
  let rest = drop used bs
  if ltb (length rest) n then err torn else ok (take n rest, used + n)

unfoldable pub enc_envelope : ℕ → ℕ → List ℕ → List ℕ
enc_envelope version fingerprint payload =
    enc_varnat version ++ (enc_varnat fingerprint ++ enc_bytes payload)

pub record EnvelopeRef : Type 0 where
  pub version : ℕ
  pub fingerprint : ℕ
  pub payload : List ℕ
  pub len : ℕ

unfoldable pub dec_envelope_prefix : List ℕ → Result DecFail EnvelopeRef
dec_envelope_prefix bs = do
  (version, u1) ← dec_varnat bs
  (fingerprint, u2) ← dec_varnat (drop u1 bs)
  (payload, u3) ← dec_bytes (drop (u1 + u2) bs)
  ok (record {
    version = version;
    fingerprint = fingerprint;
    payload = payload;
    len = u1 + u2 + u3;
  })
