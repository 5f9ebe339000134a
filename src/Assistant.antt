-- ===== src/Assistant.antt =====
-- The assistant: src/smart_desk/modules/assistant.
pub mod Tooling
pub mod Service
mod Examples
