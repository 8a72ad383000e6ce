-- ===== src/Testing.antt =====
-- webtester/modules/informatics/tester.c: the testing of a solution.
pub mod Defs
pub mod State
pub mod Loop
pub mod MainLoop
pub mod Judge
pub mod Score
pub mod Refines
pub mod Verdict
pub mod Compile
pub mod Thread
pub mod Grades
pub mod Errors
pub mod Bounds
pub mod Dirs
pub mod Pool
mod Examples
