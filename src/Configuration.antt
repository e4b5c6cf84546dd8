-- ===== src/Configuration.antt =====
-- The product-managed configuration of cc-connect (control_plane/configuration): its file, the
-- plans that change it and the history of its revisions.
pub mod Records
pub mod Template
pub mod Disk
pub mod Store
pub mod Commit
pub mod Atomic
pub mod Committed
pub mod Kept
pub mod History
pub mod Refusals
pub mod Service
pub mod Sessions
pub mod Handled
pub mod Applied
pub mod Outcome
pub mod Preflight
pub mod Executed
pub mod Confirm
pub mod Recoverable
pub mod Current
pub mod Admitted
pub mod Planned
pub mod Planning
pub mod Recover
pub mod Justified
pub mod Confirmed
pub mod Execute
