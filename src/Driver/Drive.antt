-- ===== src/Driver/Drive.antt =====
-- The runs of the generators and the two modes of `main`, main.rs. An early exit of the process is an error.
use lean_rust_wasm.Prelude.{
  ℕ, List, [], ◌∷◌, ◌++◌, Bool, true, false, ◌&&◌, ◌||◌, Option, none, some, Result, err, ok, ◌>>=◌,
  ok_or, to_option, if◌then◌else◌,
}
use lean_rust_wasm.Text.{Text, codes, same, not}
use lean_rust_wasm.Lifecycle.Pipeline.{
  PipelineStage, idle, PipelineEvent, reflect, check, emit, tie,
}
use lean_rust_wasm.Lifecycle.Pipeline.{step}
use lean_rust_wasm.Store.{
  Platform, OciStore, Verify, matches, mismatch, not_stored, strip_header, verify, store_artifacts,
}
use lean_rust_wasm.Store.Index.{Files, open_store}
use lean_rust_wasm.Json.{Serde}
use lean_rust_wasm.Driver.{ForgeFault, subprocess_fault, environment_fault, Job, Invocation, Tools}
use lean_rust_wasm.Driver.Manifest.{load_jobs}

abbrev pub contains_text : List Text → Text → Bool
contains_text [] t = false
contains_text (u ∷ us) t = same u t || contains_text us t

-- `std::process::exit(1)`, the only early exit of `main`.
pub data Exit : Type 0 where
  exit_one : Exit

-- `advance`: an illegal transition ends the process.
unfoldable pub advance : PipelineStage → PipelineEvent → Result Exit PipelineStage
advance stage e = ok_or (step stage e) exit_one

abbrev pub same_bytes : Option (List ℕ) → Option (List ℕ) → Bool
same_bytes none none = true
same_bytes none (some y) = false
same_bytes (some x) none = false
same_bytes (some x) (some y) = same x y

abbrev pub is_ok {ℓ κ} : {E : Type ℓ} {A : Type κ} → Result E A → Bool
is_ok (err e) = false
is_ok (ok a) = true

abbrev pub or_exit {ℓ κ} : {E : Type ℓ} {A : Type κ} → Result E A → Result Exit A
or_exit (err e) = err exit_one
or_exit (ok a) = ok a

abbrev pub or_text : Option Text → Text → Text
or_text none t = t
or_text (some u) t = u

module _ (h : Platform) (f : Files h) (o : Tools h) where
  abbrev pub toolchain_in_home : Option Text → Result ForgeFault Text
  toolchain_in_home none = err (
      environment_fault
        (codes "HOME unset — cannot locate the elan toolchain (set LEAN_TC or HOME)"))
  toolchain_in_home (some home) = ok (
      o.join_path
        (o.join_path (o.join_path home (codes ".elan/toolchains"))
          (codes "leanprover--lean4---v4.33.0"))
        (codes "bin"))

  abbrev pub toolchain : Option Text → Result ForgeFault Text
  toolchain (some tc) = ok tc
  toolchain none = toolchain_in_home (o.env (codes "HOME"))

  unfoldable pub lean_tc : Result ForgeFault Text
  lean_tc = toolchain (o.env (codes "LEAN_TC"))

  unfoldable pub repo_root : Text
  repo_root = or_text (o.env (codes "DEVENV_ROOT")) (codes ".")

  abbrev pub settle_status :
      Text → Result Text o.Status × h.Disk → Result ForgeFault (Unit {0}) × h.Disk
  settle_status what (err io, disk) = (err (subprocess_fault (what ++ (codes ": " ++ io))), disk)
  settle_status what (ok status, disk) = (
    if o.success status
        then ok tt
        else err (subprocess_fault (what ++ (codes ": exited " ++ o.status_text status))),
    disk,
  )

  unfoldable pub run_command : Invocation → Text → h.Disk → Result ForgeFault (Unit {0}) × h.Disk
  run_command command what disk = settle_status what (o.spawn command disk)

  abbrev pub lake : Text → Text → Job → List Text → Invocation
  lake tc root job arguments = record {
    program = o.join_path tc (codes "lake");
    arguments = codes "--dir" ∷ (codes "../.." ∷ arguments);
    current_dir = o.join_path (o.join_path root (codes "lean")) job.package_name;
    path = tc ++ 58 ∷ or_text (o.env (codes "PATH")) [];
  }

  abbrev pub run_built :
      Text
      → Text
      → Job
      → Result ForgeFault (Unit {0}) × h.Disk
      → Result ForgeFault (Unit {0}) × h.Disk
  run_built tc root job (err fault, disk) = (err fault, disk)
  run_built tc root job (ok done, disk) =
      run_command (lake tc root job (codes "exe" ∷ (job.exe ∷ job.args)))
        (codes "lake exe " ++ (job.exe ++ 32 ∷ o.debug job.args)) disk

  unfoldable pub run_job : Text → Text → Job → h.Disk → Result ForgeFault (Unit {0}) × h.Disk
  run_job tc root job disk = run_built tc root job (
      run_command (lake tc root job (codes "build" ∷ (job.exe ∷ [])))
        (codes "lake build " ++ job.exe) disk)

  unfoldable pub read_if_exists : h.Disk → Text → Option (List ℕ)
  read_if_exists disk path = to_option (h.read disk path)

  module _ (tc root : Text) where
    -- The loop of the generating mode: a job that fails is noted and the next one runs.
    abbrev pub generate_after :
        (h.Disk → Bool × h.Disk) → Result ForgeFault (Unit {0}) × h.Disk → Bool × h.Disk
    generate_after later (result, disk) = (not (is_ok result) || (later disk).0, (later disk).1)

    unfoldable pub generate : List Job → h.Disk → Bool × h.Disk
    generate [] disk = (false, disk)
    generate (job ∷ jobs) disk = generate_after (generate jobs) (run_job tc root job disk)

    abbrev pub existing : h.Disk → List Text → List (Text × Text)
    existing disk [] = []
    existing disk (out ∷ outs) =
        let rest = existing disk outs in
        if f.exists disk (o.join_path root out) then (out, o.join_path root out) ∷ rest else rest

    -- The artifacts with their paths.
    unfoldable pub pairs_of : h.Disk → List Job → List (Text × Text)
    pairs_of disk [] = []
    pairs_of disk (job ∷ jobs) = existing disk job.outputs ++ pairs_of disk jobs

    abbrev pub is_match : Result h.Io Verify → Bool
    is_match (ok matches) = true
    is_match (ok not_stored) = false
    is_match (ok (mismatch stored actual)) = false
    is_match (err e) = false

    abbrev pub pairs_match : OciStore → h.Disk → List (Text × Text) → Bool
    pairs_match s disk [] = true
    pairs_match s disk ((label, path) ∷ pairs) =
        is_match (verify h s disk label path) && pairs_match s disk pairs

    abbrev pub verify_stored_pairs :
        List (Text × Text)
        → Result h.Io (List (Text × Text) × (OciStore × h.Disk))
        → Result Exit (Unit {0})
    verify_stored_pairs pairs (err e) = err exit_one
    verify_stored_pairs pairs (ok (digests, (s, disk))) =
        if pairs_match s disk pairs then ok tt else err exit_one

    -- The artifacts go into the store and are verified there. The failure of the index's writing, which
    -- comes last, is only printed.
    unfoldable pub store_pairs : OciStore → h.Disk → List (Text × Text) → Result Exit (Unit {0})
    store_pairs s disk pairs = verify_stored_pairs pairs (store_artifacts h s disk pairs [])

    abbrev pub store_if : Bool → OciStore → h.Disk → List Job → Result Exit (Unit {0})
    store_if false s disk jobs = ok tt
    store_if true s disk jobs = store_pairs s disk (pairs_of disk jobs)

    unfoldable pub generate_mode :
        Bool → OciStore → h.Disk → List Job → PipelineStage → Result Exit (Unit {0})
    generate_mode store_too s disk jobs stage = do
      let (failed, generated) = generate jobs disk
      checked ← advance stage check
      emitted ← advance checked emit
      stored ← store_if store_too s generated jobs
      if failed then err exit_one else ok tt

    abbrev pub note : List Text → Text → List Text
    note drifted out = drifted ++ out ∷ []

    abbrev pub note_mismatch : List Text → Text → Result h.Io Verify → List Text
    note_mismatch drifted out (ok (mismatch stored actual)) =
        if contains_text drifted out then drifted else note drifted out
    note_mismatch drifted out (ok not_stored) = drifted
    note_mismatch drifted out (ok matches) = drifted
    note_mismatch drifted out (err e) = drifted

    abbrev pub stripped : Option (List ℕ) → Option (List ℕ)
    stripped none = none
    stripped (some content) = some (strip_header h content)

    -- One output after its job's run, with what the file held before.
    unfoldable pub check_output : OciStore → h.Disk → List Text → Text → Option (List ℕ) → List Text
    check_output s disk drifted out old =
        let path = o.join_path root out in
        note_mismatch
          (if same_bytes (stripped old) (stripped (read_if_exists disk path))
            then drifted
            else note drifted out)
          out (verify h s disk out path)

    abbrev pub check_outputs :
        OciStore → h.Disk → List Text → List Text → List (Option (List ℕ)) → List Text
    check_outputs s disk drifted [] before = drifted
    check_outputs s disk drifted (out ∷ outs) [] = drifted
    check_outputs s disk drifted (out ∷ outs) (old ∷ before) =
        check_outputs s disk (check_output s disk drifted out old) outs before

    abbrev pub snapshot_outputs : h.Disk → List Text → List (Option (List ℕ))
    snapshot_outputs disk [] = []
    snapshot_outputs disk (out ∷ outs) =
        read_if_exists disk (o.join_path root out) ∷ snapshot_outputs disk outs

    abbrev pub checked_job :
        (List Text → h.Disk → Result Exit (List Text))
        → OciStore
        → List Text
        → List Text
        → List (Option (List ℕ))
        → Result ForgeFault (Unit {0}) × h.Disk
        → Result Exit (List Text)
    checked_job later s drifted outs before (err fault, disk) = err exit_one
    checked_job later s drifted outs before (ok done, disk) =
        later (check_outputs s disk drifted outs before) disk

    -- The loop of the checking mode, with the outputs that have drifted so far.
    unfoldable pub check_jobs : OciStore → List Job → List Text → h.Disk → Result Exit (List Text)
    check_jobs s [] drifted disk = ok drifted
    check_jobs s (job ∷ jobs) drifted disk =
        checked_job (check_jobs s jobs) s drifted job.outputs (snapshot_outputs disk job.outputs)
          (run_job tc root job disk)

    abbrev pub refuse_drift : List Text → Result Exit (Unit {0})
    refuse_drift [] = ok tt
    refuse_drift (out ∷ drifted) = err exit_one

    unfoldable pub check_mode :
        OciStore → h.Disk → List Job → PipelineStage → Result Exit (Unit {0})
    check_mode s disk jobs stage = do
      checked ← advance stage check
      emitted ← advance checked emit
      tied ← advance emitted tie
      drifted ← check_jobs s jobs [] disk
      refuse_drift drifted

  -- `main`: the code that it exits with.
  abbrev pub exit_code : Result Exit (Unit {0}) → ℕ
  exit_code (err exit_one) = 1
  exit_code (ok done) = 0

  unfoldable pub drive : (j : Serde) → List Text → h.Disk → ℕ
  drive j args disk = exit_code (do
    tc ← or_exit lean_tc
    (s, opened) ← or_exit (open_store h f j disk (o.join_path repo_root (codes "cache/oci")))
    jobs ← or_exit (load_jobs h f o j opened repo_root)
    stage ← advance idle reflect
    if contains_text args (codes "--check")
        then check_mode tc repo_root s opened jobs stage
        else generate_mode tc repo_root (contains_text args (codes "--store")) s opened jobs stage)
