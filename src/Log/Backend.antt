-- ===== src/Log/Backend.antt =====
-- The byte sink behind a log, log.rs: the trait `Backend`, the memory sink and the file sink.
pub mod File
use lean_rust_wasm.Prelude.{ℕ, ◌≡◌, refl, List, ◌++◌, take, Result, ok}
use lean_rust_wasm.Log.Errors.{DeltaError}

-- Each operation returns its result and the sink as it leaves it.
pub record Backend : Type 1 where
  pub Sink : Type 0
  pub load : Sink → Result DeltaError (List ℕ) × Sink
  pub append : Sink → List ℕ → Result DeltaError (Unit {0}) × Sink
  pub truncate : Sink → ℕ → Result DeltaError (Unit {0}) × Sink

-- What the log relies on, of a sink that does not fail: `contents` are the journal's bytes.
pub record Laws (B : Backend) : Type 1 where
  pub contents : B.Sink → List ℕ
  pub load_lem :
      (s : B.Sink) → ((B.load s).0 ≡ ok (contents s)) × (contents (B.load s).1 ≡ contents s)
  pub append_lem :
      (s : B.Sink) (r : List ℕ)
      → ((B.append s r).0 ≡ ok tt) × (contents (B.append s r).1 ≡ contents s ++ r)
  pub truncate_lem :
      (s : B.Sink) (n : ℕ)
      → ((B.truncate s n).0 ≡ ok tt) × (contents (B.truncate s n).1 ≡ take n (contents s))

pub record MemBackend : Type 0 where
  pub bytes : List ℕ

-- `load`, `append` and `truncate` of `impl Backend for MemBackend`.
abbrev pub mem_backend : Backend
mem_backend = record {
  Sink = MemBackend;
  load = λ s. (ok s.bytes, s);
  append = λ s r. (ok tt, record { bytes = s.bytes ++ r });
  truncate = λ s n. (ok tt, record { bytes = take n s.bytes });
}

abbrev pub mem_backend_laws : Laws mem_backend
mem_backend_laws = record {
  contents = λ s. s.bytes;
  load_lem = λ s. (refl, refl);
  append_lem = λ s r. (refl, refl);
  truncate_lem = λ s n. (refl, refl);
}
