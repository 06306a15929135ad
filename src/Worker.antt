-- ===== src/Worker.antt =====
-- The workers that turn runs into requests and answers into messages.
pub mod Messages
pub mod Answer
pub mod Tools
pub mod Request
pub mod Runs
pub mod Poll
