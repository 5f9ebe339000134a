-- ===== src/Desk/Controller.antt =====
-- The desk controller (src/smart_desk/modules/desk/controller.py).
pub mod Snapshot
pub mod State
pub mod Task
pub mod Guards
pub mod Stop
pub mod Wake
pub mod Motion
pub mod Target
pub mod Hold
pub mod Pulse
pub mod WakeCycle
pub mod TargetCycle
pub mod Cycle
pub mod Lifecycle
pub mod Examples
pub mod Session
pub mod Rules
pub mod Leads
pub mod Sends
