-- ===== src/Telegram.antt =====
-- The binding of the Telegram bots to an operator and a group:
-- control_plane/telegram/binding_service.py.
pub mod Rows
pub mod Command
pub mod Roundtrip
pub mod Payload
pub mod Applied
pub mod Updates
pub mod Policy
pub mod Simulation
pub mod Refinement
pub mod Strangers
pub mod Session
pub mod Service
pub mod Poll
pub mod Sound
pub mod Invariant
pub mod Kept
pub mod Lifetime
pub mod Released
pub mod Remembered
pub mod Replayed
pub mod Idempotent
