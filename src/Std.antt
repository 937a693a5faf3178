-- ===== src/Std.antt =====
-- The containers of the Rust standard library that the program uses, as far as it relies on them.
pub mod Eq
pub mod Map
pub mod Counting
pub mod BinaryHeap
