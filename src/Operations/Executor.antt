-- ===== src/Operations/Executor.antt =====
-- The execution of one persisted job: `_execute` and what it calls, of
-- control_plane/operations/executor.py. A handler is a function of its context and the database it
-- meets, so it also stands for what other threads, such as a cancel request, write meanwhile.
use Prim.Native.String.{◌++◌}
use Prim.Native.Nat.{max}
use ai_agent_desktop.Base.{
  ℕ, ◌+◌, String, Bool, true, false, Option, none, some, List, [], ◌∷◌, str_eq, if◌then◌else◌,
}
use mathlib.Core.List
use ai_agent_desktop.Base.Dict.{Dict, lookup, insert}
use ai_agent_desktop.Errors.{UserFacingError, user_error}
use ai_agent_desktop.Operations.Records.{
  OperationStatus, running, succeeded, failed, canceled, status_value, is_terminal,
  is_cancel_requested, OperationRecord, JobRecord, EventRecord, Database,
}
use ai_agent_desktop.Operations.Store.{get, Changes, progress, transition}

pub record ExecutionContext : Type 0 where
  pub operation_id : String
  pub component_id : String
  pub kind : String
  pub payload : String

-- How a handler ends: with a result, by `OperationExecutionError`, or by another exception, of which
-- the name of the type is kept.
pub data HandlerEnd : Type 0 where
  returned : Option String → HandlerEnd
  execution_error : UserFacingError → HandlerEnd
  other_error : String → HandlerEnd

abbrev pub Handler : Type 0
Handler = ExecutionContext → Database → HandlerEnd × Database

pub data RecoveryAction : Type 0 where
  complete requeue fail : RecoveryAction

pub record RecoveryDecision : Type 0 where
  pub action : RecoveryAction
  pub result : Option String
  pub error : Option UserFacingError

pub record Registration : Type 0 where
  pub handler : Handler
  pub recovery_probe : String → String → RecoveryDecision

-- `coalesce(max(sequence), 0)` over the events of the operation.
abbrev pub last_sequence : String → List EventRecord → ℕ
last_sequence operation_id [] = 0
last_sequence operation_id (e ∷ events) =
    let rest = last_sequence operation_id events in
    if str_eq e.operation_id operation_id then max e.sequence rest else rest

-- `safe_checkpoint` raises this for an operation whose cancellation is requested.
abbrev pub checkpoint_canceled : UserFacingError
checkpoint_canceled =
    user_error "OPERATION_CANCELED" "Operation was canceled at a safe checkpoint." false []

abbrev pub checkpoint_shutdown : UserFacingError
checkpoint_shutdown =
    user_error "OPERATION_SHUTDOWN_INTERRUPTED"
      "Control Plane shutdown interrupted the operation at a safe checkpoint." true
      ("restart_control_plane" ∷ [])

cancel_of : Option OperationRecord → Bool
cancel_of none = false
cancel_of (some op) = is_cancel_requested op.status

unfoldable pub cancellation_requested : String → Database → Bool
unfolding cancel_of get
cancellation_requested operation_id db = cancel_of (get operation_id db)

-- `none` lets the handler go on.
unfoldable pub safe_checkpoint : String → Bool → Database → Option UserFacingError
unfolding cancellation_requested
safe_checkpoint operation_id shutdown db =
    if cancellation_requested operation_id db
    then some checkpoint_canceled
    else if shutdown
    then some checkpoint_shutdown
    else none

pub handler_unavailable : UserFacingError
handler_unavailable =
    user_error "OPERATION_HANDLER_UNAVAILABLE"
      "No executor handler is registered for this operation kind." true
      ("restart_control_plane" ∷ "inspect_diagnostic" ∷ [])

pub execution_failed : String → UserFacingError
execution_failed name =
    user_error "OPERATION_EXECUTION_FAILED" ("Operation handler failed: " ++ name) true
      ("inspect_diagnostic" ∷ "retry_after_review" ∷ [])

abbrev pub with_error : String → UserFacingError → Changes
with_error phase error = record (progress phase error.message) { error = some error }

-- `result or {}`
abbrev pub or_empty : Option String → String
or_empty none = "{}"
or_empty (some result) = result

-- A session that returned, or one that dispatched the handler of a registration.
pub data Dispatch : Type 0 where
  stopped : Database → Dispatch
  dispatched : Registration → ExecutionContext → Database → Dispatch

module _ (clock : ℕ → ℕ) where
  unfoldable pub audit : String → String → String → Database → Database
  audit operation_id event_type phase db =
      let e : EventRecord = record {
        operation_id = operation_id;
        sequence = last_sequence operation_id db.events + 1;
        event_type = event_type;
        phase = phase;
        created_at = clock db.ticks;
      } in
      record db { events = List.◌++◌ db.events (e ∷ []); ticks = db.ticks + 1 }

  -- `job.state = state; job.updated_at = utcnow()`
  unfoldable pub set_job : String → JobRecord → OperationStatus → Database → Database
  set_job operation_id job state db = record db {
    jobs = insert operation_id (record job { state = state; updated_at = clock db.ticks }) db.jobs;
    ticks = db.ticks + 1;
  }

  fail_unregistered : String → JobRecord → Database → Database
  unfolding handler_unavailable
  fail_unregistered operation_id job db =
      let db' =
        transition clock operation_id failed (with_error "handler_unavailable" handler_unavailable)
          db in
      audit operation_id "operation.failed" "handler_unavailable"
        (set_job operation_id job failed db')

  cancel_before_dispatch : String → JobRecord → Database → Database
  cancel_before_dispatch operation_id job db =
      let db' =
        transition clock operation_id canceled
          (progress "canceled_before_dispatch" "Operation was canceled before execution.") db in
      audit operation_id "operation.canceled" "canceled_before_dispatch"
        (set_job operation_id job canceled db')

  start_job : String → JobRecord → Registration → Database → Dispatch
  start_job operation_id job registration db =
      let db' = set_job operation_id (record job { attempts = job.attempts + 1 }) running db in
      let db'' =
        transition clock operation_id running
          (progress "dispatching" "Operation dispatched by the persisted executor.") db' in
      dispatched registration
        (record {
          operation_id = operation_id;
          component_id = job.component_id;
          kind = job.kind;
          payload = job.payload_json;
        })
        (audit operation_id "operation.dispatched" "dispatching" db'')

  start_or_fail : String → JobRecord → Option Registration → Database → Dispatch
  unfolding fail_unregistered start_job
  start_or_fail operation_id job none db = stopped (fail_unregistered operation_id job db)
  start_or_fail operation_id job (some registration) db = start_job operation_id job registration db

  dispatch_rows :
      Dict Registration → String → Option JobRecord → Option OperationRecord → Database → Dispatch
  unfolding cancel_before_dispatch start_or_fail
  dispatch_rows registrations operation_id (some job) (some operation) db =
      if is_terminal operation.status
      then stopped (set_job operation_id job operation.status db)
      else if is_cancel_requested operation.status
      then stopped (cancel_before_dispatch operation_id job db)
      else start_or_fail operation_id job (lookup job.kind registrations) db
  dispatch_rows registrations operation_id _ _ db = stopped db

  -- The first session of `_execute_locked`.
  unfoldable pub dispatch : Dict Registration → String → Database → Dispatch
  unfolding dispatch_rows get
  dispatch registrations operation_id db =
      dispatch_rows registrations operation_id (lookup operation_id db.jobs) (get operation_id db)
        db

  -- The end of `_finish_after_handler`, after its transition, if it made one.
  close_job : String → JobRecord → OperationStatus → String → Database → Database
  close_job operation_id job status phase db =
      audit operation_id ("operation." ++ status_value status) phase
        (set_job operation_id job status db)

  finish_rows :
      String → Option String → Option OperationRecord → Option JobRecord → Database → Database
  unfolding close_job
  finish_rows operation_id result (some operation) (some job) db =
      if is_cancel_requested operation.status
      then close_job operation_id job canceled "canceled" (
          transition clock operation_id canceled
            (progress "canceled" "Operation stopped at a safe cancellation point.") db)
      else if is_terminal operation.status
      then close_job operation_id job operation.status operation.progress_phase db
      else close_job operation_id job succeeded "completed" (
          transition clock operation_id succeeded
            (record (progress "completed" "Operation completed.") {
              result = some (or_empty result);
            })
            db)
  finish_rows operation_id result _ _ db = db

  unfoldable pub finish_after_handler : String → Option String → Database → Database
  unfolding finish_rows get
  finish_after_handler operation_id result db =
      finish_rows operation_id result (get operation_id db) (lookup operation_id db.jobs) db

  fail_rows :
      String → UserFacingError → Option JobRecord → Option OperationRecord → Database → Database
  fail_rows operation_id error (some job) (some operation) db =
      let db' =
        if is_terminal operation.status
        then db
        else transition clock operation_id failed (with_error "failed" error) db in
      audit operation_id "operation.failed" "failed" (set_job operation_id job failed db')
  fail_rows operation_id error _ _ db = db

  -- `_fail`
  unfoldable pub fail_operation : String → UserFacingError → Database → Database
  unfolding fail_rows get
  fail_operation operation_id error db =
      fail_rows operation_id error (lookup operation_id db.jobs) (get operation_id db) db

  unfoldable pub after_handler : String → HandlerEnd × Database → Database
  unfolding execution_failed
  after_handler operation_id (returned result, db) = finish_after_handler operation_id result db
  after_handler operation_id (execution_error error, db) = fail_operation operation_id error db
  after_handler operation_id (other_error name, db) =
      fail_operation operation_id (execution_failed name) db

  run_dispatch : String → Dispatch → Database
  unfolding after_handler
  run_dispatch operation_id (stopped db) = db
  run_dispatch operation_id (dispatched registration context db) =
      after_handler operation_id (registration.handler context db)

  unfoldable pub execute_locked : Dict Registration → String → Database → Database
  unfolding run_dispatch
  execute_locked registrations operation_id db =
      run_dispatch operation_id (dispatch registrations operation_id db)

  -- The session of `_execute` before it takes the component's lock: the job goes on to
  -- `_execute_locked` or not.
  execute_rows :
      Dict Registration → String → Option JobRecord → Option OperationRecord → Database → Database
  execute_rows registrations operation_id (some job) (some operation) db =
      if is_terminal operation.status
      then set_job operation_id job operation.status db
      else execute_locked registrations operation_id db
  execute_rows registrations operation_id _ _ db = db

  unfoldable pub execute : Dict Registration → String → Database → Database
  unfolding execute_rows get
  execute registrations operation_id db =
      execute_rows registrations operation_id (lookup operation_id db.jobs) (get operation_id db) db
