-- ===== src/Tests.antt =====
-- Runs of the theorems on concrete data.
pub mod Data
pub mod Compaction
pub mod Partition
pub mod Workers
pub mod Leader
pub mod Rescuer
mod Rows
mod Tools
mod Runs
mod Schema
mod Poll
mod Client
mod Fleet
mod Notices
mod Agents
mod Conversation
