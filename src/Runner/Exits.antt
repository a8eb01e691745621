-- ===== src/Runner/Exits.antt =====
-- The exit code of `oracle-runner probe`, main.rs.
use mathlib.Core.Logic.{◌↔◌}
use lean_rust_wasm.Prelude.{
  ℕ, zero, suc, ◌≡◌, refl, sym, ◌∙◌, List, ◌∷◌, Result, err, ok, ◌>>=◌, arith,
}
use lean_rust_wasm.Text.{Text, codes}
use lean_rust_wasm.Json.{Serde}
use lean_rust_wasm.Store.Verified.{ok_injective}
use lean_rust_wasm.Runner.{Row}
use lean_rust_wasm.Runner.Args.{Numbers}
use lean_rust_wasm.Runner.Cli.{Cli, CompareAs, as_rows, as_verdict, parse_flags, compare_as}
use lean_rust_wasm.Runner.Probe.{Component, ProbeFault, probe}
use lean_rust_wasm.Runner.Main.{
  Outside, or_one, none_failed, code_of, loaded_rows, probe_command, main,
}
use lean_rust_wasm.Runner.Agreement.{Agreed, probe-Agreed, probe_modes}

module _ (j : Serde) (p : Numbers) (Other : Type 0) (c : Component p Other)
    (o : Outside j c.State) where
  -- A run of the probe exits with 0, 1 where the answers fail.
  failures_none : (r : Result ProbeFault ℕ) → (code_of (or_one r >>= none_failed) ≡ 0) ↔ (r ≡ ok 0)
  failures_none (err e) = (λ e. absurd (ground (arith, e)), λ e. cc)
  failures_none (ok zero) = (λ e. refl, λ e. refl)
  failures_none (ok (suc n)) = (
    λ e. absurd (ground (arith, e)),
    λ e. let same_count : suc n ≡ 0 = ok_injective e in absurd (omega (arith, same_count)),
  )

  any_mode :
      (mode : CompareAs) (rows : List Row) (s : c.State)
      → probe p Other c mode rows s ≡ probe p Other c as_rows rows s
  any_mode as_rows rows s = refl
  any_mode as_verdict rows s = sym (probe_modes p Other c rows s)

  -- With a comparison that exists, a manifest that loads and a component that starts, the probe exits
  -- with 0 exactly when every row's arguments can be built and the component answers each row, in turn,
  -- with the expected value, whichever comparison is asked for.
  pub main-Agreed :
      (crate_dir : Text) (args : List Text) (cli : Cli) (mode : CompareAs) (rows : List Row)
      (s : c.State)
      → parse_flags crate_dir args ≡ ok cli
      → compare_as cli.rest ≡ ok mode
      → loaded_rows j p Other c o cli ≡ ok rows
      → o.start cli.component ≡ ok s
      → (main j p Other c o crate_dir (codes "probe" ∷ args) ≡ 0) ↔ Agreed p Other c rows s
  unfolding main probe_command
  main-Agreed crate_dir args cli mode rows s hf hm hr hs =
      let run = code_of (or_one (probe p Other c mode rows s) >>= none_failed) in
      let same_run : main j p Other c o crate_dir (codes "probe" ∷ args) ≡ run =
        rw (hf, hm, hr, hs) refl in
      let zero_run = failures_none (probe p Other c mode rows s) in
      let agreed = probe-Agreed p Other c rows s in
      let one_mode = any_mode mode rows s in
      (
        λ e. agreed.0 (sym one_mode ∙ zero_run.0 (sym same_run ∙ e)),
        λ a. same_run ∙ zero_run.1 (one_mode ∙ agreed.1 a),
      )
