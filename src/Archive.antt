-- ===== src/Archive.antt =====
-- The crate crates/monad-archive.
pub mod CircuitBreaker
pub mod RlpScanner
