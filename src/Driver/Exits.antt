-- ===== src/Driver/Exits.antt =====
-- The exit code of the driver, main.rs, in its two modes.
use mathlib.Core.Logic.{◌↔◌}
use lean_rust_wasm.Prelude.{
  ℕ, ◌≡◌, refl, sym, ap, ◌∙◌, subst, List, [], ◌∷◌, Bool, true, false, Result, err, ok, All, arith,
  if◌then◌else◌,
}
use lean_rust_wasm.Text.{Text, codes}
use lean_rust_wasm.Lifecycle.Pipeline.{step, reflecting}
use lean_rust_wasm.Store.{Platform, OciStore, store_artifacts}
use lean_rust_wasm.Store.Verified.{DiskLaws}
use lean_rust_wasm.Store.Artifacts.{Fit, Distinct, Matches, store_artifacts-Matches}
use lean_rust_wasm.Store.Index.{Files, open_store}
use lean_rust_wasm.Json.{Serde}
use lean_rust_wasm.Driver.{ForgeFault, Job, Tools}
use lean_rust_wasm.Driver.Manifest.{load_jobs}
use lean_rust_wasm.Driver.Drive.{
  Exit, exit_one, contains_text, advance, lean_tc, repo_root, run_job, generate, generate_after,
  generate_mode, pairs_of, pairs_match, store_pairs, exit_code, drive, check_mode,
}
use lean_rust_wasm.Driver.Tied.{Clean, check_mode-Clean}

exit_code-zero :
    (h : Platform) (f : Files h) (o : Tools h) (r : Result Exit (Unit {0}))
    → (exit_code h f o r ≡ 0) ↔ (r ≡ ok tt)
exit_code-zero h f o (err exit_one) = (λ e. absurd (ground (arith, e)), λ e. cc)
exit_code-zero h f o (ok done) = (λ e. refl, λ e. refl)

module _ (h : Platform) (f : Files h) (o : Tools h) where
  -- In the checking mode, when the toolchain, the store and the jobs are there, the driver exits with
  -- 0 exactly when every job runs and leaves its outputs tied.
  pub drive-Clean :
      (j : Serde) (args : List Text) (disk opened : h.Disk) (tc : Text) (s : OciStore)
      (jobs : List Job)
      → lean_tc h f o ≡ ok tc
      → open_store h f j disk (o.join_path (repo_root h f o) (codes "cache/oci")) ≡ ok (s, opened)
      → load_jobs h f o j opened (repo_root h f o) ≡ ok jobs
      → contains_text args (codes "--check") ≡ true
      → (drive h f o j args disk ≡ 0) ↔ Clean h f o tc (repo_root h f o) s jobs opened
  unfolding drive advance step
  drive-Clean j args disk opened tc s jobs htc hs hj flag =
      let clean = check_mode-Clean h f o tc (repo_root h f o) s opened jobs in
      let mode = check_mode h f o tc (repo_root h f o) s opened jobs reflecting in
      let zero = exit_code-zero h f o mode in
      let same : drive h f o j args disk ≡ exit_code h f o mode = rw (htc, hs, hj, flag) refl in
      (λ e. clean.0 (zero.0 (sym same ∙ e)), λ c. same ∙ zero.1 (clean.1 c))

  module _ (tc root : Text) where
    -- Every job runs, one after the other.
    pub data Ran : List Job → h.Disk → h.Disk → Type 0 where
      ran_none : (disk : h.Disk) → Ran [] disk disk
      ran_next :
          {job : Job} {jobs : List Job} {disk next last : h.Disk}
          → run_job h f o tc root job disk ≡ (ok tt, next)
          → Ran jobs next last
          → Ran (job ∷ jobs) disk last

    generated_next :
        (job : Job) (jobs : List Job) (disk last : h.Disk)
        (r : Result ForgeFault (Unit {0}) × h.Disk)
        → run_job h f o tc root job disk ≡ r
        → generate_after h f o tc root (generate h f o tc root jobs) r ≡ (false, last)
        → ((d : h.Disk) → generate h f o tc root jobs d ≡ (false, last) → Ran jobs d last)
        → Ran (job ∷ jobs) disk last
    generated_next job jobs disk last (err fault, d) ran e ih = cc (ap (λ p. p.0) e)
    generated_next job jobs disk last (ok done, d) ran e ih = ran_next ran (ih d e)

    generated-Ran :
        (jobs : List Job) (disk last : h.Disk)
        → generate h f o tc root jobs disk ≡ (false, last)
        → Ran jobs disk last
    unfolding generate
    generated-Ran [] disk last e = subst (λ d. Ran [] disk d) (ap (λ p. p.1) e) (ran_none disk)
    generated-Ran (job ∷ jobs) disk last e =
        generated_next job jobs disk last (run_job h f o tc root job disk) refl e
          (λ d. generated-Ran jobs d last)

    Ran-generate :
        (jobs : List Job) (disk last : h.Disk)
        → Ran jobs disk last
        → generate h f o tc root jobs disk ≡ (false, last)
    unfolding generate
    Ran-generate [] disk last (ran_none d) = refl
    Ran-generate (job ∷ jobs) disk last (ran_next {next = next} ran rest) =
        rw ran (Ran-generate jobs next last rest)

    failed_or_not :
        (failed : Bool)
        → ◌≡◌ {A = Result Exit (Unit {0})} (if failed then err exit_one else ok tt) (ok tt)
        → failed ≡ false
    failed_or_not true e = cc
    failed_or_not false e = refl

    -- Without `--store`, the generating mode exits with 0 exactly when every job runs.
    pub generate_mode-Ran :
        (s : OciStore) (disk : h.Disk) (jobs : List Job)
        → (generate_mode h f o tc root false s disk jobs reflecting ≡ ok tt)
          ↔ ((last : h.Disk) × Ran jobs disk last)
    unfolding generate_mode advance step
    generate_mode-Ran s disk jobs = (
      λ e.
          let none_failed = failed_or_not (generate h f o tc root jobs disk).0 e in
          let last = (generate h f o tc root jobs disk).1 in
          (last, generated-Ran jobs disk last (λ i. (none_failed i, last))),
      λ (last, ran). rw (Ran-generate jobs disk last ran) refl,
    )

    pairs_match-Matches :
        (s : OciStore) (disk : h.Disk) (pairs : List (Text × Text))
        → All (Matches h s disk) pairs
        → pairs_match h f o tc root s disk pairs ≡ true
    pairs_match-Matches s disk [] hs = refl
    pairs_match-Matches s disk ((label, path) ∷ pairs) (e, hs) =
        rw (e, pairs_match-Matches s disk pairs hs) refl

    -- With `--store`, when every job runs, the artifacts have distinct labels and the store takes
    -- them all, the generating mode exits with 0: its own verification of the store passes. Reads and
    -- writes behave as files do, no artifact is a blob of the store, and no two contents of artifacts
    -- share a digest.
    pub generate_mode-store_artifacts :
        DiskLaws h
        → (Among : List ℕ → Type 0)
        → ((x y : List ℕ) → Among x → Among y → h.sha256_hex x ≡ h.sha256_hex y → x ≡ y)
        → (s s2 : OciStore) (disk last disk2 : h.Disk) (jobs : List Job) (ds : List (Text × Text))
        → Ran jobs disk last
        → store_artifacts h s last (pairs_of h f o tc root last jobs) [] ≡ ok (ds, (s2, disk2))
        → All (Fit h Among s last) (pairs_of h f o tc root last jobs)
        → Distinct (pairs_of h f o tc root last jobs)
        → generate_mode h f o tc root true s disk jobs reflecting ≡ ok tt
    unfolding generate_mode store_pairs advance step
    generate_mode-store_artifacts laws Among injective s s2 disk last disk2 jobs ds ran e fit
          distinct =
        let pairs = pairs_of h f o tc root last jobs in
        let each =
          store_artifacts-Matches h laws Among injective pairs s s2 last disk2 [] ds e fit
            distinct in
        rw (Ran-generate jobs disk last ran, e, pairs_match-Matches s2 disk2 pairs each) refl
