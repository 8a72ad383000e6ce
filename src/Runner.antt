-- ===== src/Runner.antt =====
-- librun/run.c: the processes of the sandbox, their limits and how they are killed.
pub mod Process
pub mod Actions
pub mod Overview
pub mod Locked
mod Examples
