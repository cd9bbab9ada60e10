-- ===== src/Codec.antt =====
-- packages/telemetry-codec/src/index.ts: the byte layouts shared by the firmware and the services.
pub mod Words
pub mod Errors
pub mod Uplink
pub mod Downlink
pub mod ConfigReport
pub mod Examples
