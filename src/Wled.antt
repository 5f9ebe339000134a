-- ===== src/Wled.antt =====
-- The lamp: src/smart_desk/modules/wled.
pub mod Json
pub mod Color
pub mod State
pub mod Reading
pub mod Catalog
pub mod Client
pub mod Percent
mod Examples
