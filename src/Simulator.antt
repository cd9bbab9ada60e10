-- ===== src/Simulator.antt =====
-- services/simulator/src: the simulated gateway and nodes that feed the real network server.
mod Examples
pub mod Gateway
pub mod Lora
pub mod Rest
pub mod Provisioning
pub mod Join
pub mod Node
