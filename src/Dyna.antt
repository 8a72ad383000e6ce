-- ===== src/Dyna.antt =====
-- libwebtester/dynastruc.c and dynastruc.h: the doubly linked list behind every queue, stack and
-- table of the server. `Memory` has cells and commands over them, `Ops` the functions of the file,
-- `Shape` what it means that a handle and its cells stand for a list, and the other modules what
-- the functions do to that list.
pub mod Memory
pub mod Ops
pub mod Shape
pub mod Access
pub mod Delete
pub mod Ends
pub mod Walk
pub mod Bubble
pub mod Passes
pub mod Sort
pub mod Examples
