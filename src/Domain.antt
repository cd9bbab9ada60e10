-- ===== src/Domain.antt =====
-- packages/domain/src: the air quality index that the server computes for every reading.
pub mod Aqi
pub mod Examples
