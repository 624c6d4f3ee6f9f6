-- ===== src/Go.antt =====
-- What the components use of Go's standard library.
pub mod Heap
pub mod Scanner
pub mod Strings
pub mod Cut
