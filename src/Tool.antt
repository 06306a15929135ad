-- ===== src/Tool.antt =====
-- The package tool of the repository.
pub mod Schema
