-- ===== src/Hermes.antt =====
-- The routing of messages and the relay to the other agents, of src/hermes-adapter, the plugin of
-- the Hermes gateway.
pub mod Policy
pub mod Routing
pub mod Relay
pub mod Orchestrator
pub mod Modes
pub mod Bounded
pub mod Reworks
pub mod Signals
