-- ===== src/EventLog.antt =====
-- control-plane/control_plane/application/event_log.py: the journal of events and its subscribers.
pub mod Journal
pub mod Replay
