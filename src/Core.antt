-- ===== src/Core.antt =====
-- rust/catseq-core: the store of the nodes that the compiler's passes share.
pub mod Arena
