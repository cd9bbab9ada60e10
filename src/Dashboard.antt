-- ===== src/Dashboard.antt =====
-- apps/dashboard/src: the dashboard's own logic.
pub mod Mock
pub mod Aqi
pub mod Model
pub mod Stats
pub mod Store
pub mod Services
pub mod Export
pub mod Sorting
pub mod Metrics
pub mod Config
pub mod Format
pub mod Places
pub mod Views
pub mod Prefs
pub mod Locale
