-- ===== src/Go.antt =====
-- What the operator's code uses of the Go language and its standard library: maps with their
-- iteration order, `sort.SliceStable`, and the printing of values.
pub mod Maps
pub mod Sort
pub mod Format
