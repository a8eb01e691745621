-- ===== src/Runner/Main.antt =====
-- The subcommands of the oracle runner, main.rs, up to what they print: the code that `main` exits with.
use lean_rust_wasm.Prelude.{
  ℕ, zero, suc, List, [], ◌∷◌, Option, none, some, Result, err, ok, ◌>>=◌, if◌then◌else◌,
}
use lean_rust_wasm.Text.{Text, codes, same}
use lean_rust_wasm.Json.{Serde}
use lean_rust_wasm.Oracle.{ErrorId, value, full, verdict, Divergence}
use lean_rust_wasm.Runner.{Row}
use lean_rust_wasm.Runner.Rows.{manifest_surface, load_manifest}
use lean_rust_wasm.Runner.Args.{Numbers, build_args}
use lean_rust_wasm.Runner.Cli.{Cli, parse_flags, compare_as, explained_row, usage}
use lean_rust_wasm.Runner.Probe.{Component, replay_row, probe}

-- The outside: files, serde_json's list of a manifest, the start of a component from its file, and the
-- run of the Lean oracle where it is built. Errors are displays.
pub record Outside (j : Serde) (State : Type 0) : Type 0 where
  pub read_to_string : Text → Result Text Text
  pub parse_rows : Text → Result Text (List j.Json)
  pub start : Text → Result Text State
  pub cross_check : Row → Text → Result Text (Unit {0})

-- An error that `main` returns ends the process with code 1.
abbrev pub or_one {ℓ κ} : {E : Type ℓ} {A : Type κ} → Result E A → Result ℕ A
or_one (err e) = err 1
or_one (ok a) = ok a

abbrev pub first_arg : List Text → Result Text Text
first_arg [] = err usage
first_arg (t ∷ ts) = ok t

abbrev pub none_failed : ℕ → Result ℕ (Unit {0})
none_failed zero = ok tt
none_failed (suc n) = err 1

abbrev pub no_divergence : Option Divergence → Result ℕ (Unit {0})
no_divergence none = ok tt
no_divergence (some d) = err 1

abbrev pub observed_arg : Option ErrorId → Text → Text
observed_arg none payload = payload
observed_arg (some e) payload = codes "@trap"

abbrev pub code_of : Result ℕ (Unit {0}) → ℕ
code_of (err code) = code
code_of (ok done) = 0

module _ (j : Serde) (p : Numbers) (Other : Type 0) (c : Component p Other)
    (o : Outside j c.State) where
  abbrev pub read_rows : Cli → Result ℕ (List j.Json)
  read_rows cli = do raw ← or_one (o.read_to_string cli.manifest); or_one (o.parse_rows raw)

  unfoldable pub surface_command : Cli → Result ℕ Text
  surface_command cli = do rows ← read_rows cli; or_one (manifest_surface j rows)

  abbrev pub loaded_rows : Cli → Result ℕ (List Row)
  loaded_rows cli = do
    surface ← surface_command cli
    or_one (load_manifest j (o.read_to_string cli.manifest) o.parse_rows)

  unfoldable pub probe_command : Cli → Result ℕ (Unit {0})
  probe_command cli = do
    mode ← or_one (compare_as cli.rest)
    rows ← loaded_rows cli
    s ← or_one (o.start cli.component)
    failures ← or_one (probe p Other c mode rows s)
    none_failed failures

  unfoldable pub explain_command : Cli → Result ℕ (Unit {0})
  explain_command cli = do
    id ← or_one (first_arg cli.rest)
    rows ← loaded_rows cli
    (i, row) ← or_one (explained_row id rows)
    s ← or_one (o.start cli.component)
    args ← or_one (build_args p Other row.f row.args)
    got ← or_one (replay_row p Other c row.f args s).0
    checked ← or_one (o.cross_check row (observed_arg got.error got.payload))
    no_divergence (verdict full (value row.expected) got)

  abbrev pub ignore_text : Result ℕ Text → Result ℕ (Unit {0})
  ignore_text (err code) = err code
  ignore_text (ok t) = ok tt

  abbrev pub run_subcommand : Text → Cli → Result ℕ (Unit {0})
  run_subcommand cmd cli =
      let surface = ignore_text (surface_command cli) in
      let probed = probe_command cli in
      let explained = explain_command cli in
      if same cmd (codes "schema-surface")
      then surface
      else if same cmd (codes "probe")
      then probed
      else if same cmd (codes "explain")
      then explained
      else err 2

  abbrev pub with_cli : Text → Result Text Cli → Result ℕ (Unit {0})
  with_cli cmd (err e) = err 1
  with_cli cmd (ok cli) = run_subcommand cmd cli

  unfoldable pub main : Text → List Text → ℕ
  main crate_dir [] = 2
  main crate_dir (cmd ∷ args) = code_of (with_cli cmd (parse_flags crate_dir args))
