-- ===== src/Calls/Laws.antt =====
-- Laws of the calls that wait for their answers.
pub mod Updates
pub mod Routed
pub mod Refinement
pub mod Answers
