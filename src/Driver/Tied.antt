-- ===== src/Driver/Tied.antt =====
-- When the checking mode of main.rs exits clean, and when the generating mode does.
use mathlib.Core.Logic.{◌↔◌}
use lean_rust_wasm.Prelude.{
  ℕ, ◌≡◌, refl, sym, ap, ◌∙◌, List, [], ◌∷◌, ◌++◌, Bool, true, false, Option, none, some, Result,
  err, ok, to_option, ◌>>=◌, All, Bool-cases, inl, inr, if◌then◌else◌,
}
use lean_rust_wasm.Text.{Text, same_refl, same-eq}
use lean_rust_wasm.Lifecycle.Pipeline.{step, reflecting}
use lean_rust_wasm.Store.{
  Platform, OciStore, Verify, mismatch, not_stored, matches, verify, verify_stored, compare_content,
  or_empty, get, strip_header, digest_of,
}
use lean_rust_wasm.Store.Index.{Files}
use lean_rust_wasm.Driver.{ForgeFault, Job, Tools}
use lean_rust_wasm.Driver.Drive.{
  Exit, contains_text, advance, same_bytes, run_job, read_if_exists, note_mismatch, stripped,
  check_output, check_outputs, snapshot_outputs, checked_job, check_jobs, refuse_drift, check_mode,
}

same_bytes→eq : (x y : Option (List ℕ)) → same_bytes x y ≡ true → x ≡ y
same_bytes→eq none none e = refl
same_bytes→eq none (some y) e = cc
same_bytes→eq (some x) none e = cc
same_bytes→eq (some x) (some y) e = ap some (same-eq x y e)

same_bytes_refl : (x : Option (List ℕ)) → same_bytes x x ≡ true
same_bytes_refl none = refl
same_bytes_refl (some x) = same_refl x

choice_tied :
    (b : Bool) (drifted : List Text) (out : Text)
    → ((if b then drifted else drifted ++ out ∷ []) ≡ []) ↔ ((drifted ≡ []) × (b ≡ true))
choice_tied true drifted out = (λ e. (e, refl), λ p. p.0)
choice_tied false [] out = (λ e. cc, λ p. cc)
choice_tied false (u ∷ us) out = (λ e. cc, λ p. cc)

module _ (h : Platform) (f : Files h) (o : Tools h) (tc root : Text) where
  -- The store has another content under the label.
  abbrev pub disagrees : Result h.Io Verify → Bool
  disagrees (ok (mismatch stored actual)) = true
  disagrees (ok not_stored) = false
  disagrees (ok matches) = false
  disagrees (err e) = false

  -- The file is what it was but for its header, both times missing included, and the store does not
  -- say otherwise.
  abbrev pub Tied : OciStore → h.Disk → h.Disk → Text → Type 0
  Tied s before disk out =
      (stripped h f o tc root (read_if_exists h f o before (o.join_path root out))
        ≡ stripped h f o tc root (read_if_exists h f o disk (o.join_path root out)))
      × (disagrees (verify h s disk out (o.join_path root out)) ≡ false)

  -- Every job runs, and leaves its outputs tied.
  abbrev pub Clean : OciStore → List Job → h.Disk → Type 0
  Clean s [] disk = Unit
  Clean s (job ∷ jobs) disk =
      ((run_job h f o tc root job disk).0 ≡ ok tt)
      × All (Tied s disk (run_job h f o tc root job disk).1) job.outputs
      × Clean s jobs (run_job h f o tc root job disk).1

  mismatch_tied :
      (drifted : List Text) (out : Text) (v : Result h.Io Verify)
      → (note_mismatch h f o tc root drifted out v ≡ []) ↔ ((drifted ≡ []) × (disagrees v ≡ false))
  mismatch_tied drifted out (err e) = (λ e. (e, refl), λ p. p.0)
  mismatch_tied drifted out (ok not_stored) = (λ e. (e, refl), λ p. p.0)
  mismatch_tied drifted out (ok matches) = (λ e. (e, refl), λ p. p.0)
  mismatch_tied [] out (ok (mismatch stored actual)) = (λ e. cc, λ p. cc)
  mismatch_tied (u ∷ us) out (ok (mismatch stored actual)) = (
    λ e. elim (Bool-cases (contains_text (u ∷ us) out)) [
      | inl found ↦ let left : u ∷ us ≡ [] = rw found at e in cc left
      | inr lost ↦ let left : u ∷ (us ++ out ∷ []) ≡ [] = rw lost at e in cc left
    ],
    λ p. cc (p.1),
  )

  output-Tied :
      (s : OciStore) (before disk : h.Disk) (drifted : List Text) (out : Text)
      → (check_output h f o tc root s disk drifted out
            (read_if_exists h f o before (o.join_path root out))
          ≡ [])
        ↔ ((drifted ≡ []) × Tied s before disk out)
  unfolding check_output
  output-Tied s before disk drifted out =
      let path = o.join_path root out in
      let old = stripped h f o tc root (read_if_exists h f o before path) in
      let new = stripped h f o tc root (read_if_exists h f o disk path) in
      let content = choice_tied (same_bytes old new) drifted out in
      let stored =
        mismatch_tied (if same_bytes old new then drifted else drifted ++ out ∷ []) out
          (verify h s disk out path) in
      (
        λ e.
            let (kept, agrees) = stored.0 e in
            let (empty, equal) = content.0 kept in (empty, (same_bytes→eq old new equal, agrees)),
        λ p.
            stored.1 (
              content.1 (p.0, ap (λ b. same_bytes old b) (sym p.1.0) ∙ same_bytes_refl old),
              p.1.1,
            ),
      )

  outputs-Tied :
      (s : OciStore) (before disk : h.Disk) (drifted outs : List Text)
      → (check_outputs h f o tc root s disk drifted outs
            (snapshot_outputs h f o tc root before outs)
          ≡ [])
        ↔ ((drifted ≡ []) × All (Tied s before disk) outs)
  outputs-Tied s before disk drifted [] = (λ e. (e, tt), λ p. p.0)
  outputs-Tied s before disk drifted (out ∷ outs) =
      let first = output-Tied s before disk drifted out in
      let later =
        outputs-Tied s before disk
          (check_output h f o tc root s disk drifted out
            (read_if_exists h f o before (o.join_path root out)))
          outs in
      (
        λ e.
            let (kept, rest) = later.0 e in
            let (empty, tied) = first.0 kept in (empty, (tied, rest)),
        λ p. later.1 (first.1 (p.0, p.1.0), p.1.1),
      )

  abbrev CleanFrom : OciStore → List Job → Type 0
  CleanFrom s jobs =
      (drifted : List Text) (disk : h.Disk)
      → (check_jobs h f o tc root s jobs drifted disk ≡ ok [])
        ↔ ((drifted ≡ []) × Clean s jobs disk)

  job-Clean :
      (s : OciStore) (jobs : List Job) (drifted outs : List Text) (disk : h.Disk)
      (r : Result ForgeFault (Unit {0}) × h.Disk)
      → CleanFrom s jobs
      → (checked_job h f o tc root
            (check_jobs h f o tc root s jobs)
            s
            drifted
            outs
            (snapshot_outputs h f o tc root disk outs)
            r
          ≡ ok [])
        ↔ ((drifted ≡ []) × ((r.0 ≡ ok tt) × All (Tied s disk r.1) outs × Clean s jobs r.1))
  job-Clean s jobs drifted outs disk (err fault, later) ih = (λ e. cc, λ p. cc (p.1.0))
  job-Clean s jobs drifted outs disk (ok done, later) ih =
      let tied = outputs-Tied s disk later drifted outs in
      let rest =
        ih
          (check_outputs h f o tc root s later drifted outs
            (snapshot_outputs h f o tc root disk outs))
          later in
      (
        λ e.
            let (kept, clean) = rest.0 e in
            let (empty, each) = tied.0 kept in (empty, (refl, each, clean)),
        λ p. rest.1 (tied.1 (p.0, p.1.1), p.1.2),
      )

  jobs-Clean : (s : OciStore) (jobs : List Job) → CleanFrom s jobs
  unfolding check_jobs
  jobs-Clean s [] drifted disk = (λ e. (cc e, tt), λ p. ap ok p.0)
  jobs-Clean s (job ∷ jobs) drifted disk =
      job-Clean s jobs drifted job.outputs disk (run_job h f o tc root job disk) (jobs-Clean s jobs)

  refuse_clean :
      (r : Result Exit (List Text))
      → ((r >>= λ drifted. refuse_drift h f o tc root drifted) ≡ ok tt) ↔ (r ≡ ok [])
  refuse_clean (err code) = (λ e. cc, λ e. cc)
  refuse_clean (ok []) = (λ e. refl, λ e. refl)
  refuse_clean (ok (out ∷ drifted)) = (λ e. cc, λ e. cc)

  -- From the reflecting stage, the checking mode passes exactly when every job runs and leaves its
  -- outputs tied.
  pub check_mode-Clean :
      (s : OciStore) (disk : h.Disk) (jobs : List Job)
      → (check_mode h f o tc root s disk jobs reflecting ≡ ok tt) ↔ Clean s jobs disk
  unfolding check_mode advance step
  check_mode-Clean s disk jobs =
      let passed = refuse_clean (check_jobs h f o tc root s jobs [] disk) in
      let clean = jobs-Clean s jobs [] disk in
      (λ e. (clean.0 (passed.0 e)).1, λ c. passed.1 (clean.1 (refl, c)))

  agreed :
      (drifted : List Text) (out : Text) (v : Result h.Io Verify)
      → disagrees v ≡ false
      → note_mismatch h f o tc root drifted out v ≡ drifted
  agreed drifted out (err io) e = refl
  agreed drifted out (ok not_stored) e = refl
  agreed drifted out (ok matches) e = refl
  agreed drifted out (ok (mismatch stored actual)) e = cc

  missing_agrees :
      (s : OciStore) (disk : h.Disk) (path : Text) (d : Option Text)
      → read_if_exists h f o disk path ≡ none
      → disagrees (verify_stored h s disk path d) ≡ false
  unfolding read_if_exists
  missing_agrees s disk path none e = refl
  missing_agrees s disk path (some stored) e = by_read (h.read disk path) e
    where
      by_read :
          (r : Result h.Io (List ℕ))
          → to_option r ≡ none
          → disagrees (
              r >>= λ file. ok (
                compare_content h
                  (h.sha256_hex (strip_header h (or_empty h (get h s disk stored))))
                  (h.sha256_hex (strip_header h file))))
            ≡ false
      by_read (err io) e = refl
      by_read (ok file) e = cc

  -- An output that is missing before its job's run and after it does not drift, whatever the store
  -- has under its label.
  pub check_output_missing :
      (s : OciStore) (before disk : h.Disk) (drifted : List Text) (out : Text)
      → read_if_exists h f o before (o.join_path root out) ≡ none
      → read_if_exists h f o disk (o.join_path root out) ≡ none
      → check_output h f o tc root s disk drifted out
          (read_if_exists h f o before (o.join_path root out))
        ≡ drifted
  unfolding check_output verify
  check_output_missing s before disk drifted out was now =
      rw (was, now)
        (agreed drifted out (verify h s disk out (o.join_path root out))
          (missing_agrees s disk (o.join_path root out) (digest_of s out) now))
