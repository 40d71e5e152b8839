-- ===== src/Runtime/Execution/Laws.antt =====
-- What holds of a run: of one frame, of the reports, of the loop, and of the whole.
pub mod Step
pub mod Consistent
pub mod Calm
pub mod Progress
pub mod Reports
pub mod Loop
pub mod Ends
pub mod Sending
pub mod Whole
pub mod Entries
