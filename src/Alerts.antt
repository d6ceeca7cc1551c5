-- ===== src/Alerts.antt =====
-- The usage alerts (src-tauri/src/analytics/alerts): the settings, the colour levels and the quiet
-- hours, and the engine that decides what to notify.
pub mod Config
pub mod Levels
pub mod Lenient
pub mod Settings
pub mod Engine
pub mod Evaluate
pub mod Pending
pub mod Tiers
pub mod First
pub mod Budget
mod Tests
