-- ===== src/Core.antt =====
-- The core of the process: src/smart_desk/core.
pub mod Runtime
pub mod TaskManager
pub mod Container
pub mod Lifecycle
pub mod Bootstrap
mod Examples
