-- ===== src/Api.antt =====
-- apps/api/src: the REST API over the sensor registry and the telemetry.
pub mod Health
pub mod Guard
pub mod Overview
pub mod History
pub mod Sensors
pub mod Readings
pub mod Examples
