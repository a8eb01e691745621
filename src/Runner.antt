-- ===== src/Runner.antt =====
-- The host-side driver of the differential oracle, crates/oracle-runner/src/main.rs: the manifest's rows,
-- their flat arguments, the command line, and the replay of the rows.
pub mod Rows
pub mod Args
pub mod Cli
pub mod Probe
pub mod Main
pub mod Agreement
pub mod Flags
pub mod Named
pub mod Built
pub mod Derived
pub mod Exits
mod Runs
use lean_rust_wasm.Prelude.{ℕ, List}
use lean_rust_wasm.Text.{Text}

-- A fault is its domain and its detail.
pub data OracleFault : Type 0 where
  manifest_fault row_fault : Text → OracleFault

pub record Row : Type 0 where
  pub f : Text
  pub args : List Text
  pub expected : Text
