-- ===== src/Tests.antt =====
-- The theorems at concrete inputs.
mod DualAgent
mod Lease
mod Journal
mod Routing
mod Operations
mod Queue
mod Relay
mod Telegram
mod Orchestrator
mod Ports
mod Configuration
