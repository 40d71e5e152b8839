-- ===== src/Runtime/Execution.antt =====
-- rust/catseq-runtime/src/execution.rs: validation, dispatch and monitoring of one assembled
-- program. The children hold the records of a run, its three phases and the laws.
pub mod Outcome
pub mod Prepare
pub mod Dispatch
pub mod Monitor
pub mod Run
pub mod Laws
