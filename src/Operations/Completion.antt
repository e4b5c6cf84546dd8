-- ===== src/Operations/Completion.antt =====
-- Every execution of control_plane/operations/executor.py ends its operation.
use ai_agent_desktop.Base.{
  ℕ, ◌+◌, String, ◌≡◌, inl, inr, refl, true, some, arith, Bool-cases, Option-cases,
}
use ai_agent_desktop.Base.Dict.{Dict, lookup, lookup-insert_self}
use ai_agent_desktop.Operations.Records.{
  OperationStatus, running, failed, canceled, is_terminal, is_cancel_requested, OperationRecord,
  JobRecord, Database,
}
use ai_agent_desktop.Operations.Store.{Changes, progress, changed, transition}
use ai_agent_desktop.Operations.Executor.{
  ExecutionContext, HandlerEnd, Handler, Registration, Dispatch, stopped, dispatched, dispatch,
  after_handler, execute_locked, execute, audit, set_job, with_error, handler_unavailable,
}
use ai_agent_desktop.Operations.Lifecycle.{
  status_of, status_of-transition, settled, after_handler_settles,
}

-- The operation and its job are there.
abbrev pub HasRows : String → Database → Type 0
HasRows id db =
    ((op : OperationRecord) × (lookup id db.operations ≡ some op))
    × ((job : JobRecord) × (lookup id db.jobs ≡ some job))

-- The handler deletes neither the operation nor its job.
abbrev pub KeepsRows : String → Handler → Type 0
KeepsRows id handler =
    (context : ExecutionContext) (db : Database) → HasRows id db → HasRows id (handler context db).1

abbrev pub Ended : String → Database → Type 0
Ended id db =
    (status : OperationStatus) × (status_of id db ≡ some status) × (is_terminal status ≡ true)

-- The session ended the operation, or it dispatched the handler of the job's kind.
abbrev Dispatches : Dict Registration → String → JobRecord → Dispatch → Type 0
Dispatches registrations id job (stopped db) = Ended id db
Dispatches registrations id job (dispatched registration context db) =
    (lookup job.kind registrations ≡ some registration) × HasRows id db

module _ (clock : ℕ → ℕ) where
  pub HasRows-transition :
      (id : String) (status : OperationStatus) (c : Changes) (db : Database)
      → HasRows id db
      → HasRows id (transition clock id status c db)
  unfolding transition
  HasRows-transition id status c db ((op, e), (job, j)) = (
    (
      changed status c (clock db.ticks) op,
      rw e (lookup-insert_self id (changed status c (clock db.ticks) op) db.operations),
    ),
    (job, ground arith),
  )

  pub HasRows-set_job :
      (id : String) (job : JobRecord) (status : OperationStatus) (db : Database)
      → HasRows id db
      → HasRows id (set_job clock id job status db)
  unfolding set_job
  HasRows-set_job id job status db (operation, _) = (
    operation,
    (
      record job { state = status; updated_at = clock db.ticks },
      lookup-insert_self id (record job { state = status; updated_at = clock db.ticks }) db.jobs,
    ),
  )

  dispatch-Dispatches :
      (registrations : Dict Registration) (id : String) (db : Database) (op : OperationRecord)
      (job : JobRecord)
      → lookup id db.operations ≡ some op
      → lookup id db.jobs ≡ some job
      → Dispatches registrations id job (dispatch clock registrations id db)
  unfolding dispatch audit set_job
  dispatch-Dispatches registrations id db op job e j =
      rw (e, j)
        (elim (Bool-cases (is_terminal op.status)) [
          | inl ended ↦ rw ended (op.status, ground arith, ended)
          | inr live ↦ rw live (elim (Bool-cases (is_cancel_requested op.status)) [
            | inl cancel ↦ rw cancel (
              canceled,
              status_of-transition clock id canceled
                  (progress "canceled_before_dispatch" "Operation was canceled before execution.")
                  db op e,
              refl,
            )
            | inr go ↦ rw go (elim (Option-cases (lookup job.kind registrations)) [
              | inl unknown ↦ rw unknown (
                failed,
                status_of-transition clock id failed
                    (with_error "handler_unavailable" handler_unavailable) db op e,
                refl,
              )
              | inr (registration, known) ↦ rw known (known, started)
            ])
          ])
        ])
    where
      begun : JobRecord
      begun = record job { attempts = job.attempts + 1 }

      started : HasRows id (
          transition clock id running
            (progress "dispatching" "Operation dispatched by the persisted executor.")
            (set_job clock id begun running db))
      started =
          HasRows-transition id running
            (progress "dispatching" "Operation dispatched by the persisted executor.")
            (set_job clock id begun running db)
            (HasRows-set_job id begun running db ((op, e), (job, j)))

  after_handler-Ended :
      (id : String) (end : HandlerEnd) (db : Database)
      → HasRows id db
      → Ended id (after_handler clock id (end, db))
  after_handler-Ended id end db ((op, e), (job, j)) =
      let (status, ended) = after_handler_settles clock id end db op job e j in
      (settled end op.status, status, ended)

  execute_locked-Ended :
      (registrations : Dict Registration) (id : String) (db : Database) (op : OperationRecord)
      (job : JobRecord)
      → ((r : Registration) → lookup job.kind registrations ≡ some r → KeepsRows id r.handler)
      → lookup id db.operations ≡ some op
      → lookup id db.jobs ≡ some job
      → Ended id (execute_locked clock registrations id db)
  unfolding execute_locked
  execute_locked-Ended registrations id db op job keep e j =
      go (dispatch clock registrations id db) (dispatch-Dispatches registrations id db op job e j)
    where
      go :
          (d : Dispatch)
          → Dispatches registrations id job d
          → Ended id (elim d [
            | stopped db' ↦ db'
            | dispatched r context db' ↦ after_handler clock id (r.handler context db')
          ])
      go (stopped db') ended = ended
      go (dispatched r context db') (known, rows) =
          after_handler-Ended id (r.handler context db').0 (r.handler context db').1
            (keep r known context db' rows)

  -- An execution of an operation that is there with its job ends it, with one of the terminal
  -- statuses, whatever its status was, whether or not a handler is registered for its kind, and
  -- however the handler ends; the handler is only assumed not to delete the two rows.
  pub execute-Ended :
      (registrations : Dict Registration) (id : String) (db : Database) (op : OperationRecord)
      (job : JobRecord)
      → ((r : Registration) → lookup job.kind registrations ≡ some r → KeepsRows id r.handler)
      → lookup id db.operations ≡ some op
      → lookup id db.jobs ≡ some job
      → Ended id (execute clock registrations id db)
  unfolding execute set_job
  execute-Ended registrations id db op job keep e j = elim (Bool-cases (is_terminal op.status)) [
    | inl ended ↦ (op.status, ground arith, ended)
    | inr live ↦ rw (e, j, live) (execute_locked-Ended registrations id db op job keep e j)
  ]
