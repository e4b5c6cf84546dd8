-- ===== src/Operations/Invariant.antt =====
-- An execution of control_plane/operations/executor.py keeps the columns of every operation as its
-- status allows.
use ai_agent_desktop.Base.{
  ℕ, ◌+◌, String, ◌≡◌, inl, inr, refl, false, Option, some, Bool-cases, Option-cases,
}
use ai_agent_desktop.Base.Dict.{Dict, lookup}
use ai_agent_desktop.Errors.{UserFacingError}
use ai_agent_desktop.Operations.Records.{
  OperationStatus, running, succeeded, failed, canceled, is_terminal, is_cancel_requested,
  OperationRecord, JobRecord, Database,
}
use ai_agent_desktop.Operations.Store.{Changes, progress, transition}
use ai_agent_desktop.Operations.Executor.{
  Dispatch, stopped, dispatched, audit, set_job, finish_after_handler, fail_operation,
  after_handler, dispatch, execute_locked, execute, Registration, ExecutionContext, HandlerEnd,
  returned, execution_error, other_error, with_error, or_empty, execution_failed,
  handler_unavailable,
}
use ai_agent_desktop.Operations.Lifecycle.{status_of, status_of-transition}
use ai_agent_desktop.Operations.Contract.{
  Permitted, AllConform, AllConform-transition, live_of_cancel,
}

module _ (clock : ℕ → ℕ) where
  -- The end of a session, after a permitted transition of a live operation.
  Conform-close :
      (id : String) (job : JobRecord) (state : OperationStatus) (type phase : String)
      (status : OperationStatus) (c : Changes) (db : Database) (op : OperationRecord)
      → lookup id db.operations ≡ some op
      → is_terminal op.status ≡ false
      → Permitted status c
      → AllConform db
      → AllConform
          (audit clock id type phase (set_job clock id job state (transition clock id status c db)))
  unfolding audit set_job
  Conform-close id job state type phase status c db op e live may all =
      AllConform-transition clock id status c db op e live may all

  Conform-finish :
      (id : String) (result : Option String) (db : Database)
      → AllConform db
      → AllConform (finish_after_handler clock id result db)
  unfolding finish_after_handler audit set_job
  Conform-finish id result db all = elim (Option-cases (lookup id db.operations)) [
    | inl e ↦ rw e all
    | inr (op, e) ↦ elim (Option-cases (lookup id db.jobs)) [
      | inl j ↦ rw (e, j) all
      | inr (job, j) ↦ elim (Bool-cases (is_cancel_requested op.status)) [
        | inl cancel ↦
            rw (e, j, cancel)
              (AllConform-transition clock id canceled
                (progress "canceled" "Operation stopped at a safe cancellation point.") db op e
                (live_of_cancel op.status cancel) tt all)
        | inr go ↦ elim (Bool-cases (is_terminal op.status)) [
          | inl ended ↦ rw (e, j, go, ended) all
          | inr live ↦
              rw (e, j, go, live)
                (AllConform-transition clock id succeeded
                  (record (progress "completed" "Operation completed.") {
                    result = some (or_empty result);
                  })
                  db op e live tt all)
        ]
      ]
    ]
  ]

  Conform-fail :
      (id : String) (error : UserFacingError) (db : Database)
      → AllConform db
      → AllConform (fail_operation clock id error db)
  unfolding fail_operation audit set_job
  Conform-fail id error db all = elim (Option-cases (lookup id db.operations)) [
    | inl e ↦ elim (Option-cases (lookup id db.jobs)) [
      | inl j ↦ rw (e, j) all
      | inr (job, j) ↦ rw (e, j) all
    ]
    | inr (op, e) ↦ elim (Option-cases (lookup id db.jobs)) [
      | inl j ↦ rw (e, j) all
      | inr (job, j) ↦ elim (Bool-cases (is_terminal op.status)) [
        | inl ended ↦ rw (e, j, ended) all
        | inr live ↦
            rw (e, j, live)
              (AllConform-transition clock id failed (with_error "failed" error) db op e live
                ((λ n. cc), refl) all)
      ]
    ]
  ]

  Conform-after :
      (id : String) (end : HandlerEnd) (db : Database)
      → AllConform db
      → AllConform (after_handler clock id (end, db))
  unfolding after_handler
  Conform-after id (returned result) db all = Conform-finish id result db all
  Conform-after id (execution_error error) db all = Conform-fail id error db all
  Conform-after id (other_error name) db all = Conform-fail id (execution_failed name) db all

-- The handlers, called for an operation that is running, as the executor calls them, leave every
-- operation with the columns that its status allows.
abbrev pub HandlersConform : Dict Registration → Type 0
HandlersConform registrations =
    (kind : String) (r : Registration) (context : ExecutionContext) (db : Database)
    → lookup kind registrations ≡ some r
    → status_of context.operation_id db ≡ some running
    → AllConform db
    → AllConform (r.handler context db).1

-- A dispatch is of a registered kind, for an operation that is running.
abbrev Registered : Dict Registration → Dispatch → Type 0
Registered registrations (stopped db) = Unit
Registered registrations (dispatched r context db) =
    (kind : String) × (lookup kind registrations ≡ some r)
    × (status_of context.operation_id db ≡ some running)

-- The database of a dispatch.
abbrev db_of : Dispatch → Database
db_of (stopped db) = db
db_of (dispatched registration context db) = db

module _ (clock : ℕ → ℕ) where
  Conform-dispatch :
      (registrations : Dict Registration) (id : String) (db : Database)
      → AllConform db
      → AllConform (db_of (dispatch clock registrations id db))
  unfolding dispatch audit set_job
  Conform-dispatch registrations id db all = elim (Option-cases (lookup id db.operations)) [
    | inl e ↦ elim (Option-cases (lookup id db.jobs)) [
      | inl j ↦ rw (e, j) all
      | inr (job, j) ↦ rw (e, j) all
    ]
    | inr (op, e) ↦ elim (Option-cases (lookup id db.jobs)) [
      | inl j ↦ rw (e, j) all
      | inr (job, j) ↦ elim (Bool-cases (is_terminal op.status)) [
        | inl ended ↦ rw (e, j, ended) all
        | inr live ↦ elim (Bool-cases (is_cancel_requested op.status)) [
          | inl cancel ↦
              rw (e, j, live, cancel)
                (AllConform-transition clock id canceled
                  (progress "canceled_before_dispatch" "Operation was canceled before execution.")
                  db op e live tt all)
          | inr go ↦ elim (Option-cases (lookup job.kind registrations)) [
            | inl unknown ↦
                rw (e, j, live, go, unknown)
                  (AllConform-transition clock id failed
                    (with_error "handler_unavailable" handler_unavailable) db op e live
                    ((λ n. cc), refl) all)
            | inr (registration, known) ↦
                rw (e, j, live, go, known)
                  (AllConform-transition clock id running
                    (progress "dispatching" "Operation dispatched by the persisted executor.")
                    (set_job clock id (record job { attempts = job.attempts + 1 }) running db) op e
                    live (refl, refl) all)
          ]
        ]
      ]
    ]
  ]

  dispatch-Registered :
      (registrations : Dict Registration) (id : String) (db : Database)
      → Registered registrations (dispatch clock registrations id db)
  unfolding dispatch audit set_job
  dispatch-Registered registrations id db = elim (Option-cases (lookup id db.operations)) [
    | inl e ↦ elim (Option-cases (lookup id db.jobs)) [
      | inl j ↦ rw (e, j) tt
      | inr (job, j) ↦ rw (e, j) tt
    ]
    | inr (op, e) ↦ elim (Option-cases (lookup id db.jobs)) [
      | inl j ↦ rw (e, j) tt
      | inr (job, j) ↦ elim (Bool-cases (is_terminal op.status)) [
        | inl ended ↦ rw (e, j, ended) tt
        | inr live ↦ elim (Bool-cases (is_cancel_requested op.status)) [
          | inl cancel ↦ rw (e, j, live, cancel) tt
          | inr go ↦ elim (Option-cases (lookup job.kind registrations)) [
            | inl unknown ↦ rw (e, j, live, go, unknown) tt
            | inr (registration, known) ↦
                rw (e, j, live, go, known)
                  (
                    job.kind,
                    known,
                    status_of-transition clock id running
                        (progress "dispatching" "Operation dispatched by the persisted executor.")
                        (set_job clock id (record job { attempts = job.attempts + 1 }) running db)
                        op e,
                  )
          ]
        ]
      ]
    ]
  ]

  Conform-execute_locked :
      (registrations : Dict Registration) (id : String) (db : Database)
      → HandlersConform registrations
      → AllConform db
      → AllConform (execute_locked clock registrations id db)
  unfolding execute_locked
  Conform-execute_locked registrations id db keep all =
      go (dispatch clock registrations id db) (dispatch-Registered registrations id db)
        (Conform-dispatch registrations id db all)
    where
      go :
          (d : Dispatch)
          → Registered registrations d
          → AllConform (db_of d)
          → AllConform (elim d [
            | stopped db' ↦ db'
            | dispatched r context db' ↦ after_handler clock id (r.handler context db')
          ])
      go (stopped db') known fine = fine
      go (dispatched r context db') (kind, known, started) fine =
          Conform-after clock id (r.handler context db').0 (r.handler context db').1
            (keep kind r context db' known started fine)

  -- An execution keeps the columns of every operation of the database as its status allows, on
  -- every branch, if each registered handler does when it is called for an operation that is
  -- running: an operation that has not ended has no result, no error and
  -- no time of completion, a success no error, a failure an error and no result, a cancellation no
  -- result, and what has ended a time of completion.
  pub execute-AllConform :
      (registrations : Dict Registration) (id : String) (db : Database)
      → HandlersConform registrations
      → AllConform db
      → AllConform (execute clock registrations id db)
  unfolding execute set_job
  execute-AllConform registrations id db keep all = elim (Option-cases (lookup id db.operations)) [
    | inl e ↦ elim (Option-cases (lookup id db.jobs)) [
      | inl j ↦ rw (e, j) all
      | inr (job, j) ↦ rw (e, j) all
    ]
    | inr (op, e) ↦ elim (Option-cases (lookup id db.jobs)) [
      | inl j ↦ rw (e, j) all
      | inr (job, j) ↦ elim (Bool-cases (is_terminal op.status)) [
        | inl ended ↦ rw (e, j, ended) all
        | inr live ↦ rw (e, j, live) (Conform-execute_locked registrations id db keep all)
      ]
    ]
  ]
