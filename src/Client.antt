-- ===== src/Client.antt =====
-- The client of client.go, with its configuration in config.go.
pub mod Config
pub mod Wait
pub mod Agents
pub mod Notices
pub mod Runs
