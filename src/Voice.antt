-- ===== src/Voice.antt =====
-- The voice service: src/smart_desk/modules/voice.
pub mod Recorder
pub mod State
pub mod Service
mod Examples
