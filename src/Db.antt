-- ===== src/Db.antt =====
-- packages/db/src: the fixtures and the seed of the sensors table; the schemas are with their users.
pub mod Fixtures
pub mod Seed
