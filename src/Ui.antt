-- ===== src/Ui.antt =====
-- The service of the user interface in ui/service.
pub mod Summaries
pub mod Groups
pub mod Conversation
