-- ===== src/Driver.antt =====
-- The driver of the build tool, crates/forge/src/main.rs: the job manifests, the runs of the
-- generators, and the two modes of `main`. A fault is its domain and its detail.
pub mod Manifest
pub mod Drive
pub mod Tied
pub mod Exits
mod Runs
use lean_rust_wasm.Prelude.{List, Bool, Option, Result, ◌++◌}
use lean_rust_wasm.Text.{Text}
use lean_rust_wasm.Store.{Platform}

pub data ForgeFault : Type 0 where
  manifest_fault subprocess_fault environment_fault : Text → ForgeFault

pub record Job : Type 0 where
  pub package_name : Text
  pub exe : Text
  pub args : List Text
  pub outputs : List Text

-- A command: its program, its arguments, its directory and its search path.
pub record Invocation : Type 0 where
  pub program : Text
  pub arguments : List Text
  pub current_dir : Text
  pub path : Text

-- What the driver takes from std besides files' contents: the environment, paths, and the commands
-- that it spawns, which may change the disk. Io errors are their displays.
pub record Tools (h : Platform) : Type 1 where
  pub env : Text → Option Text
  pub join_path : Text → Text → Text
  pub Status : Type 0
  pub success : Status → Bool
  pub status_text : Status → Text
  pub spawn : Invocation → h.Disk → Result Text Status × h.Disk
  -- `{:?}` of a list of texts
  pub debug : List Text → Text
