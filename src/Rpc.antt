-- ===== src/Rpc.antt =====
-- The crate crates/monad-rpc.
pub mod BlockBuffer
pub mod TxPool
pub mod GasEstimate
pub mod FillTransaction
pub mod CallRequest
pub mod FeeHistory
