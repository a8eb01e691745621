-- ===== src/Log.antt =====
-- The append-only delta log, crates/wasm-delta/src/log.rs, in its parts.
pub mod Errors
pub mod Schemas
pub mod Entry
pub mod Backend
pub mod Core
pub mod Journal
