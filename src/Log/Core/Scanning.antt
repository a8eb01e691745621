-- ===== src/Log/Core/Scanning.antt =====
-- The scan of `open_with` in log.rs over a journal of whole records, and what may follow them.
use lean_rust_wasm.Prelude.{
  ℕ, zero, suc, ◌+◌, ◌<◌, ◌≤◌, ◌≡◌, ◌≢◌, refl, sym, ap, ◌∙◌, List, [], ◌∷◌, ◌++◌, length, drop, All,
  true, false, Option, none, some, Result, ok, err, arith, append-nil, append_assoc, length-append,
  drop-append, if◌then◌else◌, ◌==◌, ltb, lt→ltb, Bool-cases, inl, inr, ◌⊎◌, >>=-eq-ok,
}
use lean_rust_wasm.Codec.{
  IsU64, DecFail, torn, corrupt, EnvelopeRef, dec_envelope_prefix, enc_envelope, enc_varnat,
  dec_bytes, dec_varnat,
}
use lean_rust_wasm.Codec.Varnat.{enc_varnat_shape, dec_varnat_takes}
use lean_rust_wasm.Codec.RoundTrip.{dec_envelope_prefix-enc_envelope}
use lean_rust_wasm.Log.Schemas.{SchemaSet, fingerprint}
use lean_rust_wasm.Log.Schemas.Fingerprint.{fingerprint-IsU64}
use lean_rust_wasm.Log.Entry.{DeltaEntry, version, enc_entry_payload, dec_entry_payload, enc_record}
use lean_rust_wasm.Log.Entry.RoundTrip.{EntryHas, dec_entry_payload-enc_entry_payload}
use lean_rust_wasm.Log.Core.{Scan, done, cut, stuck, Round, stop, next, decoded, scan_round, scan}

-- The record that `append` writes for an entry, and the journal of a list of entries.
abbrev pub payload_of : SchemaSet → DeltaEntry → List ℕ
payload_of ss e = (enc_entry_payload ss e).1

unfoldable pub record_of : SchemaSet → DeltaEntry → List ℕ
record_of ss e = enc_record ss (payload_of ss e)

unfoldable pub journal : SchemaSet → List DeltaEntry → List ℕ
journal ss [] = []
journal ss (e ∷ es) = record_of ss e ++ journal ss es

-- An entry that the log can hold, with a payload that fits a `Vec<u8>`.
abbrev pub Writable : SchemaSet → DeltaEntry → Type 0
Writable ss e = EntryHas ss e × IsU64 (length (payload_of ss e))

record_of-pos : (ss : SchemaSet) (e : DeltaEntry) → 0 < length (record_of ss e)
unfolding record_of enc_record enc_envelope
record_of-pos ss e =
    omega (arith, enc_varnat_shape version (omega arith), length-append {0} (enc_varnat version))

-- One turn of the loop, by what the round gives.
scan-next :
    (ss : SchemaSet) (fuel : ℕ) (bytes : List ℕ) (offset : ℕ) (entries : List DeltaEntry)
    {offset' : ℕ} {entries' : List DeltaEntry}
    → offset < length bytes
    → scan_round ss offset entries (dec_envelope_prefix (drop offset bytes)) ≡ next offset' entries'
    → scan ss (suc fuel) bytes offset entries ≡ scan ss fuel bytes offset' entries'
unfolding scan
scan-next ss fuel bytes offset entries h e = rw (lt→ltb _ _ h) (rw e)

pub scan-stop :
    (ss : SchemaSet) (fuel : ℕ) (bytes : List ℕ) (offset : ℕ) (entries : List DeltaEntry)
    {result : Scan}
    → offset < length bytes
    → scan_round ss offset entries (dec_envelope_prefix (drop offset bytes)) ≡ stop result
    → scan ss (suc fuel) bytes offset entries ≡ result
unfolding scan
scan-stop ss fuel bytes offset entries h e = rw (lt→ltb _ _ h) (rw e)

module _ (ss : SchemaSet) (e : DeltaEntry) (w : Writable ss e) where
  scan_round-record :
      (offset : ℕ) (entries : List DeltaEntry) (rest : List ℕ)
      → scan_round ss offset entries (dec_envelope_prefix (record_of ss e ++ rest))
        ≡ next (offset + length (record_of ss e)) (entries ++ (e ∷ []))
  unfolding scan_round decoded record_of enc_record
  scan_round-record offset entries rest =
      rw
        (dec_envelope_prefix-enc_envelope version (fingerprint ss) (payload_of ss e) rest
          (omega arith) (fingerprint-IsU64 ss) w.1)
        (ground (arith, (dec_entry_payload-enc_entry_payload ss e w.0).1))

  scan_step :
      (fuel : ℕ) (bytes front rest : List ℕ) (entries : List DeltaEntry)
      → bytes ≡ front ++ (record_of ss e ++ rest)
      → scan ss (suc fuel) bytes (length front) entries
        ≡ scan ss fuel bytes (length (front ++ record_of ss e)) (entries ++ (e ∷ []))
  scan_step fuel bytes front rest entries shape =
      let at : drop (length front) bytes ≡ record_of ss e ++ rest =
        ap (drop (length front)) shape ∙ drop-append front (record_of ss e ++ rest) in
      rw length-append (
        scan-next ss fuel bytes (length front) entries
          (omega (
            arith,
            ap (λ (t : List ℕ). length t) shape,
            length-append front (record_of ss e ++ rest),
            length-append (record_of ss e) rest,
            record_of-pos ss e,
          ))
          (rw at (scan_round-record (length front) entries rest)))

-- A scan of whole records takes them all up, and then does what it does at the bytes behind them.
pub scan-journal :
    (ss : SchemaSet) (es : List DeltaEntry) (fuel : ℕ) (bytes front tail : List ℕ)
    (entries : List DeltaEntry) (result : Scan)
    → All (Writable ss) es
    → bytes ≡ front ++ (journal ss es ++ tail)
    → length (journal ss es ++ tail) ≤ fuel
    → ((f : ℕ)
        → length tail ≤ f
        → scan ss f bytes (length (front ++ journal ss es)) (entries ++ es) ≡ result)
    → scan ss fuel bytes (length front) entries ≡ result
unfolding journal
scan-journal ss [] fuel bytes front tail entries result w shape le end =
    simp append-nil at (end fuel le)
scan-journal ss (e ∷ es) zero bytes front tail entries result (w, ws) shape le end = absurd (
    omega (
      arith,
      record_of-pos ss e,
      length-append (record_of ss e ++ journal ss es) tail,
      length-append (record_of ss e) (journal ss es),
    ))
scan-journal ss (e ∷ es) (suc fuel) bytes front tail entries result (w, ws) shape le end =
    let r = record_of ss e in
    let j = journal ss es in
    let shape' : bytes ≡ front ++ (r ++ (j ++ tail)) =
      shape ∙ ap (λ t. front ++ t) (append_assoc r j tail) in
    scan_step ss e w fuel bytes front (j ++ tail) entries shape'
    ∙ scan-journal ss es fuel bytes (front ++ r) tail (entries ++ (e ∷ [])) result ws
        (shape' ∙ sym (append_assoc front r (j ++ tail)))
        (omega (
          arith,
          record_of-pos ss e,
          length-append (r ++ j) tail,
          length-append r j,
          length-append j tail,
        ))
        λ f h. rw (append_assoc front r j, append_assoc entries (e ∷ []) es) (end f h)

-- At the end of the bytes the scan is done; at a torn record it stops there.
pub scan_at_end :
    (ss : SchemaSet) (fuel : ℕ) (bytes : List ℕ) (entries : List DeltaEntry)
    → scan ss fuel bytes (length bytes) entries ≡ done entries
unfolding scan
scan_at_end ss zero bytes entries = ground arith
scan_at_end ss (suc fuel) bytes entries = ground arith

pub scan_at_torn :
    (ss : SchemaSet) (fuel : ℕ) (bytes front : List ℕ) (x : ℕ) (tail : List ℕ)
    (entries : List DeltaEntry)
    → bytes ≡ front ++ (x ∷ tail)
    → dec_envelope_prefix (x ∷ tail) ≡ err torn
    → length (x ∷ tail) ≤ fuel
    → scan ss fuel bytes (length front) entries ≡ cut (length front) entries
unfolding scan_round
scan_at_torn ss zero bytes front x tail entries shape e le = absurd (omega arith)
scan_at_torn ss (suc fuel) bytes front x tail entries shape e le =
    let at : drop (length front) bytes ≡ x ∷ tail =
      ap (drop (length front)) shape ∙ drop-append front (x ∷ tail) in
    scan-stop ss fuel bytes (length front) entries
      (omega (arith, ap (λ (t : List ℕ). length t) shape, length-append front (x ∷ tail)))
      (rw (at, e))

-- A whole envelope takes at least a byte.
envelope_len : (bs : List ℕ) (env : EnvelopeRef) → dec_envelope_prefix bs ≡ ok env → 0 < env.len
unfolding dec_envelope_prefix
envelope_len bs env e =
    let ((v, u1), ev, e1) = >>=-eq-ok (dec_varnat bs) _ e in
    let ((f, u2), ef, e2) = >>=-eq-ok (dec_varnat (drop u1 bs)) _ e1 in
    let ((p, u3), ep, e3) = >>=-eq-ok (dec_bytes (drop (u1 + u2) bs)) _ e2 in
    ground (arith, dec_varnat_takes bs v u1 ev)

-- A round never runs out, and one that goes on moves past at least a byte.
abbrev Moves : ℕ → Round → Type 0
Moves offset (stop r) = r ≢ stuck
Moves offset (next o es) = offset < o

decoded-Moves :
    (offset : ℕ) (entries : List DeltaEntry) (len : ℕ) (o : Option DeltaEntry)
    → 0 < len
    → Moves offset (decoded offset entries len o)
unfolding decoded
decoded-Moves offset entries len none h = λ e. cc
decoded-Moves offset entries len (some e) h = omega arith

scan_round-Moves :
    (ss : SchemaSet) (offset : ℕ) (entries : List DeltaEntry) (r : Result DecFail EnvelopeRef)
    → ((env : EnvelopeRef) → r ≡ ok env → 0 < env.len)
    → Moves offset (scan_round ss offset entries r)
unfolding scan_round
scan_round-Moves ss offset entries (err torn) h = λ e. cc
scan_round-Moves ss offset entries (err corrupt) h = λ e. cc
scan_round-Moves ss offset entries (ok env) h = elim (Bool-cases (env.version == version)) [
  | inl e ↦ elim (Bool-cases (env.fingerprint == fingerprint ss)) [
    | inl f ↦ rw e (
        rw f (decoded-Moves offset entries env.len (dec_entry_payload ss env.payload) (h env refl)))
    | inr f ↦ rw e (rw f (λ k. cc))
  ]
  | inr e ↦ rw e (λ k. cc)
]

-- The scan of any bytes ends: with a round for each byte left the fuel is never used up.
pub scan-ne-stuck :
    (ss : SchemaSet) (fuel : ℕ) (bytes : List ℕ) (offset : ℕ) (entries : List DeltaEntry)
    → length bytes ≤ offset + fuel
    → scan ss fuel bytes offset entries ≢ stuck
unfolding scan
scan-ne-stuck ss zero bytes offset entries le = λ h. ground arith
scan-ne-stuck ss (suc fuel) bytes offset entries le =
    go (scan_round ss offset entries (dec_envelope_prefix (drop offset bytes)))
      (scan_round-Moves ss offset entries _ (envelope_len (drop offset bytes)))
      (λ o es. scan-ne-stuck ss fuel bytes o es) (Bool-cases (ltb offset (length bytes)))
  where
    go :
        (r : Round)
        → Moves offset r
        → ((o : ℕ) (es : List DeltaEntry)
            → length bytes ≤ o + fuel
            → scan ss fuel bytes o es ≢ stuck)
        → ((ltb offset (length bytes) ≡ true) ⊎ (ltb offset (length bytes) ≡ false))
        → (if ltb offset (length bytes)
            then (elim r as (λ _. Scan) [ stop x ↦ x | next o es ↦ scan ss fuel bytes o es ])
            else done entries)
          ≢ stuck
    go r m ih (inr f) = rw f (λ k. cc)
    go (stop x) m ih (inl t) = rw t m
    go (next o es) m ih (inl t) = rw t (ih o es (omega arith))
