-- ===== src/DualAgent.antt =====
-- src/dual-agent-fallback: the runner that delegates one task to several agents.
pub mod Delegator
pub mod Guard
pub mod Aggregate
pub mod Runner
pub mod Sequence
pub mod Gather
pub mod Fuse
