-- ===== src/Setup.antt =====
-- cmd/main.go: from the flags to a running manager.
pub mod Flags
pub mod Options
pub mod Start
pub mod Scheme
pub mod Serving
pub mod Order
