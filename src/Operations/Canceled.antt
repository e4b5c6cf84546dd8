-- ===== src/Operations/Canceled.antt =====
-- What becomes of a cancellation that a handler of control_plane/operations/executor.py meets at its
-- safe checkpoint.
use ai_agent_desktop.Base.{
  ℕ, ◌+◌, String, Bool, ◌≡◌, ◌≢◌, refl, none, some, arith, subst, sym, ap, ◌∙◌,
}
use ai_agent_desktop.Base.Dict.{Dict, lookup, lookup-insert_self}
use ai_agent_desktop.Errors.{UserFacingError}
use ai_agent_desktop.Operations.Records.{
  queued, running, cancel_requested, failed, OperationRecord, JobRecord, Database,
}
use ai_agent_desktop.Operations.Store.{progress, changed, transition}
use ai_agent_desktop.Operations.Executor.{
  ExecutionContext, HandlerEnd, execution_error, Registration, safe_checkpoint, checkpoint_canceled,
  fail_operation, after_handler, dispatch, execute_locked, execute, audit, set_job, with_error,
}
use ai_agent_desktop.Operations.Completion.{HasRows, HasRows-transition, HasRows-set_job}

-- The operation and its job are there, the cancellation of the operation is requested, and the safe
-- checkpoint stops the handler there.
pub record IsStopped (id : String) (shutdown : Bool) (end : HandlerEnd × Database) : Type 0 where
  pub op : OperationRecord
  pub job : JobRecord
  pub error : UserFacingError
  pub has_op : lookup id end.1.operations ≡ some op
  pub has_job : lookup id end.1.jobs ≡ some job
  pub requested : op.status ≡ cancel_requested
  pub checkpoint : safe_checkpoint id shutdown end.1 ≡ some error
  pub raises : end.0 ≡ execution_error error

-- The operation has failed with this error, and its job too.
pub record HasFailed (id : String) (error : UserFacingError) (db : Database) : Type 0 where
  pub op : OperationRecord
  pub job : JobRecord
  pub has_op : lookup id db.operations ≡ some op
  pub has_job : lookup id db.jobs ≡ some job
  pub status : op.status ≡ failed
  pub error_json : op.error_json ≡ some error
  pub completed : op.completed_at ≢ none
  pub state : job.state ≡ failed

module _ (clock : ℕ → ℕ) where
  fail_operation-HasFailed :
      (id : String) (error : UserFacingError) (db : Database) (op : OperationRecord)
      (job : JobRecord)
      → lookup id db.operations ≡ some op
      → lookup id db.jobs ≡ some job
      → op.status ≡ cancel_requested
      → HasFailed id error (fail_operation clock id error db)
  unfolding fail_operation transition audit set_job changed
  fail_operation-HasFailed id error db op job e j c =
      let now = clock db.ticks in
      let row = changed failed (with_error "failed" error) now op in
      let job' : JobRecord = record job { state = failed; updated_at = clock (db.ticks + 1) } in
      record {
        op = row;
        job = job';
        has_op = ground (arith, e, j, c, lookup-insert_self id row db.operations);
        has_job = ground (arith, e, j, c, lookup-insert_self id job' db.jobs);
        status = refl;
        error_json = refl;
        completed = λ n. cc;
        state = refl;
      }

  stopped-HasFailed :
      (id : String) (shutdown : Bool) (end : HandlerEnd × Database)
      → IsStopped id shutdown end
      → HasFailed id checkpoint_canceled (after_handler clock id end)
  unfolding after_handler safe_checkpoint
  stopped-HasFailed id shutdown end h =
      let same : h.error ≡ checkpoint_canceled =
        ground (arith, h.has_op, h.requested, h.checkpoint) in
      let whole : end ≡ (execution_error checkpoint_canceled, end.1) =
        ap (λ (x : HandlerEnd). (x, end.1)) (h.raises ∙ ap execution_error same) in
      subst (λ x. HasFailed id checkpoint_canceled (after_handler clock id x)) (sym whole)
        (fail_operation-HasFailed id checkpoint_canceled end.1 h.op h.job h.has_op h.has_job
          h.requested)

  locked_fails :
      (registrations : Dict Registration) (id : String) (shutdown : Bool) (db : Database)
      (op : OperationRecord) (job : JobRecord) (r : Registration)
      → lookup id db.operations ≡ some op
      → lookup id db.jobs ≡ some job
      → op.status ≡ queued
      → lookup job.kind registrations ≡ some r
      → ((context : ExecutionContext) (db' : Database)
          → HasRows id db'
          → IsStopped id shutdown (r.handler context db'))
      → HasFailed id checkpoint_canceled (execute_locked clock registrations id db)
  unfolding execute_locked dispatch audit
  locked_fails registrations id shutdown db op job r e j c known stops =
      rw (e, j, c, known)
        (stopped-HasFailed id shutdown (r.handler context started) (stops context started rows))
    where
      context : ExecutionContext
      context = record {
        operation_id = id;
        component_id = job.component_id;
        kind = job.kind;
        payload = job.payload_json;
      }

      begun : Database
      begun = set_job clock id (record job { attempts = job.attempts + 1 }) running db

      dispatching : Database
      dispatching =
          transition clock id running
            (progress "dispatching" "Operation dispatched by the persisted executor.") begun

      started : Database
      started = audit clock id "operation.dispatched" "dispatching" dispatching

      rows : HasRows id started
      rows =
          HasRows-transition clock id running
            (progress "dispatching" "Operation dispatched by the persisted executor.") begun
            (HasRows-set_job clock id (record job { attempts = job.attempts + 1 }) running db
              ((op, e), (job, j)))

  -- A queued operation whose kind has a handler that is always stopped by the safe checkpoint, since
  -- the cancellation of the operation was requested meanwhile, is executed to the status failed, and
  -- not to canceled: its error is that of the checkpoint, it has a time of completion, and its job
  -- has failed.
  pub checkpoint_cancel_fails :
      (registrations : Dict Registration) (id : String) (shutdown : Bool) (db : Database)
      (op : OperationRecord) (job : JobRecord) (r : Registration)
      → lookup id db.operations ≡ some op
      → lookup id db.jobs ≡ some job
      → op.status ≡ queued
      → lookup job.kind registrations ≡ some r
      → ((context : ExecutionContext) (db' : Database)
          → HasRows id db'
          → IsStopped id shutdown (r.handler context db'))
      → HasFailed id checkpoint_canceled (execute clock registrations id db)
  unfolding execute
  checkpoint_cancel_fails registrations id shutdown db op job r e j c known stops =
      let fails = locked_fails registrations id shutdown db op job r e j c known stops in
      rw (e, j, c) fails
