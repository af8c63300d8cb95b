-- ===== src/Copies.antt =====
-- api/v1beta1/zz_generated.deepcopy.go: copies on a heap of Go values.
pub mod Heap
pub mod Layout
pub mod Pointers
pub mod Structs
pub mod Generated
pub mod Values
pub mod Correct
pub mod Independence
pub mod Ready
