-- ===== src/Belts.antt =====
-- webtester/belts.c: the belts, on which tasks are tested.
pub mod Defs
pub mod Identity
pub mod Conservation
pub mod Capacity
pub mod Chains
pub mod Progress
pub mod Accumulator
pub mod Advance
pub mod Runs
mod Examples
