-- ===== src/Lifecycle.antt =====
-- The lifecycle of the managed programs: control-plane/control_plane/lifecycle.
pub mod Ports
pub mod Chosen
