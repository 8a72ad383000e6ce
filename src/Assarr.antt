-- ===== src/Assarr.antt =====
-- libwebtester/assarr.c and assarr.h: associative arrays, chained hash tables with string keys.
pub mod Table
pub mod Keys
pub mod Lookup
pub mod Laws
pub mod Unset
pub mod Pack
pub mod Numerals
pub mod Unpack
mod Examples
