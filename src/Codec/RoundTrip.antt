-- ===== src/Codec/RoundTrip.antt =====
-- The booleans, the byte strings and the envelope of codec.rs: each decoder is stable under more
-- input, reads back what its encoder wrote, and finds every proper prefix torn.
use Prim.Native.Nat.{bit_and}
use lean_rust_wasm.Prelude.{
  ℕ, ◌+◌, ◌*◌, ◌%◌, ◌^◌, ◌≤◌, ◌≡◌, refl, List, [], ◌∷◌, ◌++◌, length, drop, take, Bool, true, false,
  ok, err, arith, length-append, length-drop, drop-append, take-append, drop-add, append_assoc,
  drop-append_le, take-append_le, ltb, if◌then◌else◌,
}
use lean_rust_wasm.Codec.{
  DecResult, torn, corrupt, IsU64, enc_varnat, dec_varnat_loop, dec_varnat, enc_bool, dec_bool,
  enc_bytes, dec_bytes, enc_envelope, EnvelopeRef, dec_envelope_prefix,
}
use lean_rust_wasm.Codec.Varnat.{dec_varnat_takes, dec_varnat-enc_varnat}
use lean_rust_wasm.Codec.Stable.{IsStable, consumed, Stable-ok, Stable-drop, Stable-bind}

dec_varnat_loop-append :
    (bs more : List ℕ) (i acc shift n used : ℕ)
    → dec_varnat_loop bs i acc shift ≡ ok (n, used)
    → dec_varnat_loop (bs ++ more) i acc shift ≡ ok (n, used)
unfolding dec_varnat_loop
dec_varnat_loop-append [] more i acc shift n used e = cc
dec_varnat_loop-append (b ∷ bs) more i acc shift n used e = ground (
  arith,
  dec_varnat_loop-append bs more (i + 1) (acc + bit_and b 0x7f * 2 ^ shift % 2 ^ 64) (shift + 7) n
      used,
)

dec_varnat_loop-append_corrupt :
    (bs more : List ℕ) (i acc shift : ℕ)
    → dec_varnat_loop bs i acc shift ≡ err corrupt
    → dec_varnat_loop (bs ++ more) i acc shift ≡ err corrupt
unfolding dec_varnat_loop
dec_varnat_loop-append_corrupt [] more i acc shift e = cc
dec_varnat_loop-append_corrupt (b ∷ bs) more i acc shift e = ground (
  arith,
  dec_varnat_loop-append_corrupt bs more (i + 1) (acc + bit_and b 0x7f * 2 ^ shift % 2 ^ 64)
      (shift + 7),
)

pub dec_varnat-IsStable : IsStable 0 consumed dec_varnat
unfolding dec_varnat
dec_varnat-IsStable = record {
  keeps = λ bs more (n, u) le e.
      (dec_varnat_loop-append bs more 0 0 0 n u e, omega (arith, dec_varnat_takes bs n u e));
  rejects = λ bs more le e. dec_varnat_loop-append_corrupt bs more 0 0 0 e;
}

pub dec_bool-IsStable : IsStable 0 consumed dec_bool
unfolding dec_bool
dec_bool-IsStable = record { keeps = dec_bool_keeps; rejects = dec_bool_rejects }
  where
    dec_bool_keeps :
        (bs more : List ℕ) (p : Bool × ℕ)
        → 0 ≤ length bs
        → dec_bool bs ≡ ok p
        → (dec_bool (bs ++ more) ≡ ok p) × (consumed p ≤ length bs)
    dec_bool_keeps [] more p le e = cc
    dec_bool_keeps (b ∷ bs) more (x, u) le e = (e, ground arith)

    dec_bool_rejects :
        (bs more : List ℕ)
        → 0 ≤ length bs
        → dec_bool bs ≡ err corrupt
        → dec_bool (bs ++ more) ≡ err corrupt
    dec_bool_rejects [] more le e = cc
    dec_bool_rejects (b ∷ bs) more le e = e

-- What `dec_bytes` does after the length.
abbrev payload_of : ℕ × ℕ → List ℕ → DecResult (List ℕ)
payload_of (n, used) bs =
    let rest = drop used bs in if ltb (length rest) n then err torn else ok (take n rest, used + n)

payload_of-IsStable : (p : ℕ × ℕ) → IsStable p.1 consumed (payload_of p)
payload_of-IsStable (n, used) = record {
  keeps = λ bs more (v, u) le e. ground (
    arith,
    length-drop used bs,
    drop-append_le used bs more,
    length-append (drop used bs) more,
    take-append_le n (drop used bs) more,
  );
  rejects = λ bs more le e. ground arith;
}

pub dec_bytes-IsStable : IsStable 0 consumed dec_bytes
unfolding dec_bytes
dec_bytes-IsStable = Stable-bind dec_varnat-IsStable payload_of-IsStable

pub dec_envelope_prefix-IsStable : IsStable 0 (λ (e : EnvelopeRef). e.len) dec_envelope_prefix
unfolding dec_envelope_prefix
dec_envelope_prefix-IsStable = Stable-bind dec_varnat-IsStable λ (version, u1).
    Stable-bind (Stable-drop u1 dec_varnat-IsStable) λ (fingerprint, u2).
      Stable-bind (Stable-drop (u1 + u2) dec_bytes-IsStable)
        λ (payload, u3). Stable-ok (u1 + u2 + u3) (λ (e : EnvelopeRef). e.len) _ (omega arith)

pub dec_bool-enc_bool :
    (b : Bool) (rest : List ℕ) → dec_bool (enc_bool b ++ rest) ≡ ok (b, length (enc_bool b))
unfolding enc_bool dec_bool
dec_bool-enc_bool true rest = refl
dec_bool-enc_bool false rest = refl

-- The byte strings that fit a `Vec<u8>`.
pub dec_bytes-enc_bytes :
    (payload rest : List ℕ)
    → IsU64 (length payload)
    → dec_bytes (enc_bytes payload ++ rest) ≡ ok (payload, length (enc_bytes payload))
unfolding dec_bytes enc_bytes
dec_bytes-enc_bytes payload rest h =
    let head = enc_varnat (length payload) in
    rw
      (
        append_assoc head payload rest,
        dec_varnat-enc_varnat (length payload) (payload ++ rest) h,
        drop-append head (payload ++ rest),
      )
      (ground
        (arith, length-append payload rest, take-append payload rest, length-append head payload))

-- An encoded envelope decodes to its fields, in front of any bytes, and reports its own length.
pub dec_envelope_prefix-enc_envelope :
    (version fingerprint : ℕ) (payload rest : List ℕ)
    → IsU64 version
    → IsU64 fingerprint
    → IsU64 (length payload)
    → dec_envelope_prefix (enc_envelope version fingerprint payload ++ rest)
      ≡ ok (record {
        version = version;
        fingerprint = fingerprint;
        payload = payload;
        len = length (enc_envelope version fingerprint payload);
      })
unfolding dec_envelope_prefix enc_envelope
dec_envelope_prefix-enc_envelope version fingerprint payload rest hv hf hp =
    let a = enc_varnat version in
    let b = enc_varnat fingerprint in
    let c = enc_bytes payload in
    simp
      (
        append_assoc,
        drop-add,
        drop-append,
        dec_varnat-enc_varnat version _ hv,
        dec_varnat-enc_varnat fingerprint _ hf,
        dec_bytes-enc_bytes payload rest hp,
      )
      (ground (arith, length-append a (b ++ c), length-append b c))
