-- ===== src/Log/Journal/Hole.antt =====
-- `open_with` and `append` of log.rs over the file sink: what becomes of a record that is appended
-- through the handle that a recovery has just truncated.
use lean_rust_wasm.Prelude.{
  ℕ, zero, suc, ◌+◌, ◌-◌, ◌≡◌, ◌≤◌, refl, ap, ◌∙◌, List, [], ◌∷◌, ◌++◌, length, drop, take, All,
  some, ok, err, arith, take-append, drop-append, length-append,
}
use lean_rust_wasm.Codec.{dec_envelope_prefix, dec_varnat, dec_varnat_loop, dec_bytes}
use lean_rust_wasm.Log.Errors.{DeltaError}
use lean_rust_wasm.Log.Schemas.{SchemaSet}
use lean_rust_wasm.Log.Entry.{DeltaEntry}
use lean_rust_wasm.Log.Backend.File.{
  File, FileLaws, fs_backend, load, append, truncate, load_whole, append_holed, truncate_cut, zeros,
}
use lean_rust_wasm.Log.Core.{failed, scan, scan_round}
use lean_rust_wasm.Log.Core.Scanning.{journal, Writable, scan-journal, scan-stop}
use lean_rust_wasm.Log.Journal.{open_with, after_scan}
use lean_rust_wasm.Log.Journal.Open.{loaded_of}

-- Three zero bytes are a whole envelope, of version 0.
zeros_decode :
    (rest : List ℕ)
    → dec_envelope_prefix (0 ∷ 0 ∷ 0 ∷ rest)
      ≡ ok (record { version = 0; fingerprint = 0; payload = []; len = 3 })
unfolding dec_envelope_prefix dec_varnat dec_varnat_loop dec_bytes
zeros_decode rest = ground arith

scan_at_zeros :
    (ss : SchemaSet) (fuel : ℕ) (bytes front rest : List ℕ) (entries : List DeltaEntry)
    → bytes ≡ front ++ (0 ∷ 0 ∷ 0 ∷ rest)
    → length (0 ∷ 0 ∷ 0 ∷ rest) ≤ fuel
    → scan ss fuel bytes (length front) entries ≡ failed (DeltaError.wrong_version (length front) 0)
unfolding scan_round
scan_at_zeros ss zero bytes front rest entries shape le = absurd (omega arith)
scan_at_zeros ss (suc fuel) bytes front rest entries shape le =
    let at : drop (length front) bytes ≡ 0 ∷ 0 ∷ 0 ∷ rest =
      ap (drop (length front)) shape ∙ drop-append front (0 ∷ 0 ∷ 0 ∷ rest) in
    scan-stop ss fuel bytes (length front) entries
      (omega (arith, ap (λ (t : List ℕ). length t) shape, length-append front (0 ∷ 0 ∷ 0 ∷ rest)))
      (rw (at, zeros_decode rest) refl)

-- A journal with a hole behind its whole records does not scan.
scan_hole :
    (ss : SchemaSet) (es : List DeltaEntry) (bytes rest : List ℕ)
    → All (Writable ss) es
    → bytes ≡ journal ss es ++ (0 ∷ 0 ∷ 0 ∷ rest)
    → scan ss (length bytes) bytes 0 []
      ≡ failed (DeltaError.wrong_version (length (journal ss es)) 0)
scan_hole ss es bytes rest w whole =
    scan-journal ss es (length bytes) bytes [] (0 ∷ 0 ∷ 0 ∷ rest) [] _ w whole
      (omega (arith, ap (λ (t : List ℕ). length t) whole))
      λ f h. scan_at_zeros ss f bytes (journal ss es) rest es whole h

module _ (F : File) (L : FileLaws F) where
  open L use {bytes, cursor}

  -- The backend calls of a recovery from a torn tail of three bytes or more, then of an append: the
  -- load, the truncation to the whole records, and the write of a record. The write answers Ok, and
  -- the journal does not open again: behind the whole records it finds a version 0.
  pub recovery-append_lost :
      (h : F.Handle) (ss : SchemaSet) (es : List DeltaEntry) (piece r : List ℕ)
      → All (Writable ss) es
      → bytes h ≡ journal ss es ++ piece
      → 3 ≤ length piece
      → ((append F (truncate F (load F h).1 (length (journal ss es))).1 r).0 ≡ ok tt)
        × (open_with
              (fs_backend F)
              (append F (truncate F (load F h).1 (length (journal ss es))).1 r).1
              ss
            ≡ some (err (DeltaError.wrong_version (length (journal ss es)) 0)))
  unfolding open_with after_scan
  recovery-append_lost h ss es piece r w shape long =
      let n = length (journal ss es) in
      let (a, b, c) = load_whole F L h in
      let size : length (bytes h) ≡ n + length piece =
        ap (λ (t : List ℕ). length t) shape ∙ length-append (journal ss es) piece in
      let h1 = (load F h).1 in
      let (d, e, f) = truncate_cut F L h1 n (rw b (omega (arith, size))) in
      let h2 = (truncate F h1 n).1 in
      let cut : bytes h2 ≡ journal ss es =
        e ∙ ap (take n) (b ∙ shape) ∙ take-append (journal ss es) piece in
      let far : cursor h2 ≡ n + length piece = f ∙ c ∙ size in
      let (g, grown, _) = append_holed F L h2 r (rw (far, cut) (omega arith)) in
      let h3 = (append F h2 r).1 in
      let gap : cursor h2 - length (bytes h2) ≡ suc (suc (suc (length piece - 3))) =
        rw (far, cut) (omega arith) in
      let holed : bytes h3 ≡ journal ss es ++ (0 ∷ 0 ∷ 0 ∷ (zeros (length piece - 3) ++ r)) =
        grown ∙ ap (λ k. bytes h2 ++ (zeros k ++ r)) gap ∙ rw cut refl in
      let (read, _, _) = load_whole F L h3 in
      (
        g,
        loaded_of (fs_backend F) ss (load F h3) (bytes h3) read
            ∙ ap (after_scan (fs_backend F) ss (load F h3).1)
                (scan_hole ss es (bytes h3) _ w holed),
      )
