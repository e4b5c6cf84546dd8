-- ===== src/Operations.antt =====
-- The persisted operations of the control plane: control_plane/application/operation_store.py and
-- control_plane/operations/executor.py.
pub mod Records
pub mod Store
pub mod Executor
pub mod Lifecycle
pub mod Canceled
pub mod Completion
pub mod Contract
pub mod Invariant
pub mod Recovery
pub mod Decision
pub mod Restart
pub mod Queue
pub mod Workers
