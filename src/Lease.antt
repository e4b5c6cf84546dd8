-- ===== src/Lease.antt =====
-- control-plane/control_plane/telegram/update_lease.py: who may poll a Telegram bot for updates.
pub mod Model
pub mod Exclusion
pub mod Fencing
pub mod Runtime
pub mod Granted
pub mod Freed
