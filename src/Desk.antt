-- ===== src/Desk.antt =====
-- The desk package (src/smart_desk/modules/desk), one module for each of its files.
pub mod Models
pub mod Relay
pub mod Settings
pub mod Segment
pub mod HeightMonitor
pub mod Controller
mod Examples
