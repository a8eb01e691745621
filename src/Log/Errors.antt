-- ===== src/Log/Errors.antt =====
-- `DeltaError` of log.rs. The texts of `reason` are the constructors of `Reason`, and the operating
-- system's cause of an I/O failure is left out.
use lean_rust_wasm.Prelude.{ℕ, List}

pub data Reason : Type 0 where
  key_less row_mismatch remove_key_mismatch no_key not_invertible not_encoded : Reason
  malformed_header undecodable_payload : Reason

pub data DeltaError : Type 0 where
  io : DeltaError
  unknown_table : List ℕ → DeltaError
  schema_mismatch : List ℕ → Reason → DeltaError
  wrong_version : ℕ → ℕ → DeltaError
  fingerprint_mismatch : ℕ → DeltaError
  corrupt : ℕ → Reason → DeltaError
