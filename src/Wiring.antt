-- ===== src/Wiring.antt =====
-- How the objects of one resource refer to each other.
pub mod Permissions
pub mod Route
pub mod Ports
