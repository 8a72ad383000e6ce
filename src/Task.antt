-- ===== src/Task.antt =====
-- webtester/task.h and task.c: a task, its flags and buffers, and its chain of modules.
pub mod Defs
pub mod Chain
mod Examples
