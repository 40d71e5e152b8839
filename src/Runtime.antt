-- ===== src/Runtime.antt =====
-- The execution runtime: rust/catseq-runtime/src.
pub mod Bytes
pub mod Rtlink
pub mod Address
pub mod Contract
pub mod Transport
pub mod Execution
