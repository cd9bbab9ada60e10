-- ===== src/Ingestion.antt =====
-- services/ingestion/src/ingestion/ingestion.service.ts: what one MQTT message does to the tables,
-- the cache, the channel and the counters.
pub mod State
pub mod Handler
pub mod Effects
pub mod Stores
pub mod Invariant
pub mod Delivery
pub mod Redelivery
pub mod Admission
pub mod Examples
