-- ===== src/Strings.antt =====
-- libwebtester/strlib.c and the string functions of util.c.
--
-- A string is the list of its bytes; an output buffer is the string that it holds, with the room that
-- its caller gives it left out, but for the buffer that `parse_range` has itself.
pub mod Slashes
pub mod Trim
pub mod Paths
pub mod Explode
pub mod Numbers
pub mod Range
mod Examples
