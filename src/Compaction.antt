-- ===== src/Compaction.antt =====
-- compaction/: the context compaction of a session.
pub mod Tokens
pub mod Config
pub mod Counter
pub mod Partition
pub mod Errors
pub mod Summarize
pub mod Hybrid
pub mod Compactor
pub mod Stats
