-- ===== src/Store.antt =====
-- driver/pgxv5/store.go: the queries of the PostgreSQL store, over lists of rows.
pub mod Messages
pub mod Runs
pub mod Tools
pub mod World
pub mod Context
pub mod Iterations
pub mod Instances
pub mod Agents
