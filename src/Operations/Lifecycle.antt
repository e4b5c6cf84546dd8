-- ===== src/Operations/Lifecycle.antt =====
-- How an execution of control_plane/operations/executor.py moves the status of its operation.
use ai_agent_desktop.Base.{
  ℕ, String, ◌≡◌, inl, inr, refl, true, Option, none, some, arith, Option-cases, eq_refl,
}
use ai_agent_desktop.Base.Dict.{Dict, lookup, lookup-insert}
use ai_agent_desktop.Operations.Records.{
  OperationStatus, queued, running, cancel_requested, succeeded, failed, canceled, is_terminal,
  OperationRecord, JobRecord, Database,
}
use ai_agent_desktop.Operations.Store.{Changes, progress, changed, transition}
use ai_agent_desktop.Operations.Executor.{
  HandlerEnd, returned, execution_error, other_error, Registration, after_handler,
  finish_after_handler, fail_operation, execute, audit, set_job, with_error, or_empty,
  execution_failed, execute_locked, dispatch,
}

abbrev pub status_in : Option OperationRecord → Option OperationStatus
status_in none = none
status_in (some op) = some op.status

abbrev pub status_of : String → Database → Option OperationStatus
status_of operation_id db = status_in (lookup operation_id db.operations)

pub changed_status :
    (status : OperationStatus) (c : Changes) (now : ℕ) (r : OperationRecord)
    → (changed status c now r).status ≡ status
unfolding changed
changed_status status c now r = ground arith

module _ (clock : ℕ → ℕ) where
  -- A transition of an operation that is there gives it the status.
  pub status_of-transition :
      (id : String) (status : OperationStatus) (c : Changes) (db : Database) (op : OperationRecord)
      → lookup id db.operations ≡ some op
      → status_of id (transition clock id status c db) ≡ some status
  unfolding transition
  status_of-transition id status c db op e =
      let r = changed status c (clock db.ticks) op in
      ground (
        arith,
        lookup-insert id id r db.operations,
        eq_refl id,
        changed_status status c (clock db.ticks) op,
      )

  operations-close :
      (id : String) (job : JobRecord) (status : OperationStatus) (type phase : String)
      (db : Database)
      → (audit clock id type phase (set_job clock id job status db)).operations ≡ db.operations
  unfolding audit set_job
  operations-close id job status type phase db = refl

-- The status that an operation ends with, from how the handler ended and the status it left.
abbrev pub settled : HandlerEnd → OperationStatus → OperationStatus
settled end succeeded = succeeded
settled end failed = failed
settled end canceled = canceled
settled (returned result) cancel_requested = canceled
settled (returned result) queued = succeeded
settled (returned result) running = succeeded
settled (execution_error error) _ = failed
settled (other_error name) _ = failed

settled-terminal : (end : HandlerEnd) (s : OperationStatus) → is_terminal (settled end s) ≡ true
settled-terminal (returned result) s = ground arith
settled-terminal (execution_error error) s = ground arith
settled-terminal (other_error name) s = ground arith

module _ (clock : ℕ → ℕ) where
  after_handler_status :
      (id : String) (end : HandlerEnd) (db : Database) (op : OperationRecord) (job : JobRecord)
      → lookup id db.operations ≡ some op
      → lookup id db.jobs ≡ some job
      → status_of id (after_handler clock id (end, db)) ≡ some (settled end op.status)
  unfolding after_handler finish_after_handler fail_operation audit set_job
  after_handler_status id (returned result) db op job e j =
      let stopped = progress "canceled" "Operation stopped at a safe cancellation point." in
      let completed : Changes = record (progress "completed" "Operation completed.") {
        result = some (or_empty result);
      } in
      ground (
        arith,
        status_of-transition clock id canceled stopped db op,
        status_of-transition clock id succeeded completed db op,
      )
  after_handler_status id (execution_error error) db op job e j =
      ground (arith, status_of-transition clock id failed (with_error "failed" error) db op)
  after_handler_status id (other_error name) db op job e j = ground (
    arith,
    status_of-transition clock id failed (with_error "failed" (execution_failed name)) db op,
  )

  -- Whatever the handler did and however it ended, an operation that was there with its job ends
  -- terminal: the status that the handler left, if that was terminal; else failed after an
  -- exception, and after a result canceled if a cancellation was requested and succeeded if not.
  pub after_handler_settles :
      (id : String) (end : HandlerEnd) (db : Database) (op : OperationRecord) (job : JobRecord)
      → lookup id db.operations ≡ some op
      → lookup id db.jobs ≡ some job
      → (status_of id (after_handler clock id (end, db)) ≡ some (settled end op.status))
        × (is_terminal (settled end op.status) ≡ true)
  after_handler_settles id end db op job e j =
      (after_handler_status id end db op job e j, settled-terminal end op.status)

  -- An operation that has ended keeps its row, and its handler is not called: executing it again
  -- is the same with any handlers.
  pub execute_ended :
      (registrations registrations' : Dict Registration) (id : String) (db : Database)
      (op : OperationRecord)
      → lookup id db.operations ≡ some op
      → is_terminal op.status ≡ true
      → ((execute clock registrations id db).operations ≡ db.operations)
        × (execute clock registrations id db ≡ execute clock registrations' id db)
  unfolding execute set_job
  execute_ended registrations registrations' id db op e t =
      elim (Option-cases (lookup id db.jobs)) [
        | inl none' ↦ (ground arith, ground arith)
        | inr (job, j) ↦ (ground arith, ground arith)
      ]

  -- A request to cancel that comes before the execution is met without calling the handler: the
  -- operation ends canceled, and executing it is the same with any handlers.
  pub execute_canceled :
      (registrations registrations' : Dict Registration) (id : String) (db : Database)
      (op : OperationRecord) (job : JobRecord)
      → lookup id db.operations ≡ some op
      → lookup id db.jobs ≡ some job
      → op.status ≡ cancel_requested
      → (status_of id (execute clock registrations id db) ≡ some canceled)
        × (execute clock registrations id db ≡ execute clock registrations' id db)
  unfolding execute execute_locked dispatch audit set_job
  execute_canceled registrations registrations' id db op job e j c = (
    ground (
      arith,
      status_of-transition clock id canceled
          (progress "canceled_before_dispatch" "Operation was canceled before execution.") db op,
    ),
    ground arith,
  )
