-- ===== src/Contracts.antt =====
-- packages/contracts/src: the shapes that the services exchange, with the checks of their schemas.
pub mod Reading
pub mod Events
pub mod Registration
