-- ===== src/Dashboard/Views.antt =====
-- The logic in the scripts of apps/dashboard/src/views and components; their templates are not modelled.
pub mod SensorHistory
pub mod Network
pub mod Trends
pub mod Chart
pub mod Table
pub mod Map
pub mod Live
mod Examples
