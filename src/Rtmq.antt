-- ===== src/Rtmq.antt =====
-- rust/catseq-rtmq: the RTMQ instruction set, the download format, the link step and the
-- scheduler of a board.
pub mod Isa
pub mod Download
pub mod Link
pub mod Schedule
