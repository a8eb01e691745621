-- ===== src/Log/Journal/Open.antt =====
-- `open_with` of log.rs, over a journal of whole records and over one with a torn tail.
use lean_rust_wasm.Prelude.{
  ℕ, ◌≡◌, ◌≢◌, refl, sym, ap, ◌∙◌, List, [], ◌∷◌, ◌++◌, length, take, All, Option, none, some,
  Result, ok, err, ◌>>=◌, arith, append-nil, take-append,
}
use lean_rust_wasm.Codec.{torn, dec_envelope_prefix}
use lean_rust_wasm.Codec.Torn.{dec_envelope_prefix_torn}
use lean_rust_wasm.Log.Errors.{DeltaError}
use lean_rust_wasm.Log.Schemas.{SchemaSet, fingerprint}
use lean_rust_wasm.Log.Schemas.Fingerprint.{fingerprint-IsU64}
use lean_rust_wasm.Log.Entry.{DeltaEntry, version, enc_record}
use lean_rust_wasm.Log.Backend.{Backend, Laws}
use lean_rust_wasm.Log.Core.{Scan, done, cut, failed, stuck, scan}
use lean_rust_wasm.Log.Core.Scanning.{
  record_of, journal, Writable, payload_of, scan-journal, scan_at_end, scan_at_torn, scan-ne-stuck,
}
use lean_rust_wasm.Log.Journal.{DeltaLog, opened, after_scan, scan_loaded, open_with}

-- A proper prefix of a record is torn.
pub record_torn :
    (ss : SchemaSet) (e : DeltaEntry) (front : List ℕ) (x : ℕ) (back : List ℕ)
    → Writable ss e
    → record_of ss e ≡ front ++ (x ∷ back)
    → dec_envelope_prefix front ≡ err torn
unfolding record_of enc_record
record_torn ss e front x back w shape =
    dec_envelope_prefix_torn version (fingerprint ss) (payload_of ss e) front x back (omega arith)
      (fingerprint-IsU64 ss) w.1 shape

-- The scan of a journal of whole records ends with their entries.
pub scan_whole :
    (ss : SchemaSet) (es : List DeltaEntry) (bytes : List ℕ)
    → All (Writable ss) es
    → bytes ≡ journal ss es
    → scan ss (length bytes) bytes 0 [] ≡ done es
scan_whole ss es bytes w whole =
    scan-journal ss es (length bytes) bytes [] [] [] (done es) w
      (whole ∙ sym (append-nil (journal ss es)))
      (rw append-nil (omega (arith, ap (λ (t : List ℕ). length t) whole)))
      λ f h. rw (← whole) (scan_at_end ss f bytes es)

-- The scan of whole records and a piece of one more stops before the piece.
pub scan_cut :
    (ss : SchemaSet) (es : List DeltaEntry) (e : DeltaEntry) (x : ℕ) (piece : List ℕ) (y : ℕ)
    (back : List ℕ)
    → All (Writable ss) es
    → Writable ss e
    → record_of ss e ≡ (x ∷ piece) ++ (y ∷ back)
    → (bytes : List ℕ) → bytes ≡ journal ss es ++ (x ∷ piece)
    → scan ss (length bytes) bytes 0 [] ≡ cut (length (journal ss es)) es
scan_cut ss es e x piece y back w we shape bytes whole =
    scan-journal ss es (length bytes) bytes [] (x ∷ piece) [] _ w whole
      (omega (arith, ap (λ (t : List ℕ). length t) whole))
      λ f h.
        scan_at_torn ss f bytes (journal ss es) x piece es whole
          (record_torn ss e (x ∷ piece) y back we shape) h

module _ (B : Backend) where
  after_scan-ne-none :
      (ss : SchemaSet) (sink : B.Sink) (r : Scan) → r ≢ stuck → after_scan B ss sink r ≢ none
  unfolding after_scan
  after_scan-ne-none ss sink (done es) h e = cc
  after_scan-ne-none ss sink (cut o es) h e = cc
  after_scan-ne-none ss sink (failed x) h e = cc
  after_scan-ne-none ss sink stuck h e = h refl

  -- Opening answers, with a log or an error, on every backend and every journal.
  pub open_with_total : (sink : B.Sink) (ss : SchemaSet) → open_with B sink ss ≢ none
  unfolding open_with scan_loaded
  open_with_total sink ss = go (B.load sink)
    where
      go : (p : Result DeltaError (List ℕ) × B.Sink) → scan_loaded B ss p ≢ none
      go (err x, s) = λ e. cc
      go (ok bytes, s) =
          after_scan-ne-none ss s _ (scan-ne-stuck ss (length bytes) bytes 0 [] (omega arith))

  pub loaded_of :
      (ss : SchemaSet) (p : Result DeltaError (List ℕ) × B.Sink) (bytes : List ℕ)
      → p.0 ≡ ok bytes
      → scan_loaded B ss p ≡ after_scan B ss p.1 (scan ss (length bytes) bytes 0 [])
  unfolding scan_loaded
  loaded_of ss (err x, s) bytes h = cc
  loaded_of ss (ok found, s) bytes h =
      let same : found ≡ bytes = cc in
      ap (λ (t : List ℕ). after_scan B ss s (scan ss (length t) t 0 [])) same

  cut_of :
      (ss : SchemaSet) (p : Result DeltaError (Unit {0}) × B.Sink) (es : List DeltaEntry)
      → p.0 ≡ ok tt
      → ◌≡◌ {A = Option (Result DeltaError (DeltaLog B.Sink))}
          (some (p.0 >>= λ _. ok (opened p.1 ss es)))
          (some (ok (opened p.1 ss es)))
  cut_of ss (err x, s) es h = cc
  cut_of ss (ok u, s) es h = refl

  module _ (L : Laws B) where
    open L use {contents, load_lem, truncate_lem}

    loaded :
        (sink : B.Sink) (ss : SchemaSet)
        → open_with B sink ss
          ≡ after_scan B ss (B.load sink).1 (scan ss (length (contents sink)) (contents sink) 0 [])
    unfolding open_with
    loaded sink ss = loaded_of ss (B.load sink) (contents sink) (load_lem sink).0

    -- Durability: opening a journal of whole records gives back exactly their entries, in order.
    pub open_with-journal :
        (sink : B.Sink) (ss : SchemaSet) (es : List DeltaEntry)
        → All (Writable ss) es
        → contents sink ≡ journal ss es
        → open_with B sink ss ≡ some (ok (opened (B.load sink).1 ss es))
    unfolding after_scan
    open_with-journal sink ss es w h =
        loaded sink ss ∙ ap (after_scan B ss (B.load sink).1) (scan_whole ss es (contents sink) w h)

    -- Crash recovery: behind whole records, a piece of one more record is cut off. The log opens with the
    -- entries of the whole records, and the backend holds just these records.
    pub open_with_torn :
        (sink : B.Sink) (ss : SchemaSet) (es : List DeltaEntry) (e : DeltaEntry) (x : ℕ)
        (piece : List ℕ) (y : ℕ) (back : List ℕ)
        → All (Writable ss) es
        → Writable ss e
        → record_of ss e ≡ (x ∷ piece) ++ (y ∷ back)
        → contents sink ≡ journal ss es ++ (x ∷ piece)
        → (sink' : B.Sink) × (open_with B sink ss ≡ some (ok (opened sink' ss es)))
          × (contents sink' ≡ journal ss es)
    unfolding after_scan
    open_with_torn sink ss es e x piece y back w we shape h =
        let s1 = (B.load sink).1 in
        let n = length (journal ss es) in
        let (fine, kept) = truncate_lem s1 n in
        (
          (B.truncate s1 n).1,
          loaded sink ss
              ∙ ap (after_scan B ss s1)
                  (scan_cut ss es e x piece y back w we shape (contents sink) h)
              ∙ cut_of ss (B.truncate s1 n) es fine,
          kept ∙ ap (take n) ((load_lem sink).1 ∙ h) ∙ take-append (journal ss es) (x ∷ piece),
        )
