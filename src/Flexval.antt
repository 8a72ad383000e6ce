-- ===== src/Flexval.antt =====
-- libwebtester/flexval.c: values that are a string, an integer, a float or an array of values, and how
-- they are written and read.
mod Defs
mod Scanner
mod Reader
mod Written
mod Scanning
mod Shorter
mod Examples
pub mod Fuel
pub mod RoundTrip
pub use Defs.*
pub use Scanner.*
pub use Reader.*
