-- ===== src/Operations/Recovery.antt =====
-- What the executor does with persisted jobs when it starts: `_recover_persisted_jobs` and
-- `_recover_job` of control_plane/operations/executor.py.
use Prim.Native.String.{◌++◌}
use ai_agent_desktop.Base.{
  ℕ, String, Bool, true, false, not, ◌&&◌, Option, none, some, List, [], ◌∷◌, contains,
  if◌then◌else◌,
}
use ai_agent_desktop.Base.Dict.{Dict, lookup}
use ai_agent_desktop.Errors.{UserFacingError, user_error}
use ai_agent_desktop.Operations.Records.{
  OperationStatus, queued, running, succeeded, failed, is_terminal, OperationRecord, JobRecord,
  Database,
}
use ai_agent_desktop.Operations.Store.{get, Changes, progress, transition}
use ai_agent_desktop.Operations.Executor.{
  RecoveryAction, complete, requeue, fail, RecoveryDecision, Registration, audit, set_job, or_empty,
  with_error,
}

abbrev action_value : RecoveryAction → String
action_value complete = "complete"
action_value requeue = "requeue"
action_value fail = "fail"

-- The error of `RecoveryDecision.fail` with its default message and actions.
unsafe_error : String → UserFacingError
unsafe_error code =
    user_error code "The interrupted operation cannot be resumed safely." true
      ("inspect_state" ∷ "retry_after_review" ∷ [])

-- `RecoveryDecision.fail(code=code)`
unfoldable pub failing : String → RecoveryDecision
unfolding unsafe_error
failing code = record { action = fail; result = none; error = some (unsafe_error code) }

-- `_default_recovery_probe`
unfoldable pub default_recovery_probe : String → String → RecoveryDecision
default_recovery_probe operation_id payload = failing "OPERATION_RECOVERY_UNSAFE"

pub probe_of : String → String → Option Registration → RecoveryDecision
probe_of operation_id payload none = failing "OPERATION_HANDLER_UNAVAILABLE"
probe_of operation_id payload (some registration) = registration.recovery_probe operation_id payload

-- `decision.error or RecoveryDecision.fail().error`
error_of : Option UserFacingError → UserFacingError
unfolding unsafe_error
error_of none = unsafe_error "OPERATION_RECOVERY_UNSAFE"
error_of (some error) = error

-- The status that a decision gives to the operation and to the job.
abbrev pub status_after : RecoveryAction → OperationStatus
status_after complete = succeeded
status_after requeue = queued
status_after fail = failed

pub changes_after : RecoveryAction → RecoveryDecision → Changes
unfolding error_of
changes_after complete decision =
    record (progress "recovered_complete"
      "On-disk state proves the interrupted operation completed.") {
        result = some (or_empty decision.result);
      }
changes_after requeue decision =
    progress "recovered_queued" "Recovery probe found a safe retry point."
changes_after fail decision = with_error "recovery_failed" (error_of decision.error)

abbrev is_waiting : OperationStatus → Bool
is_waiting queued = true
is_waiting running = true
is_waiting _ = false

-- The keys of the jobs whose state is queued or running.
unfoldable pub waiting_jobs : Dict JobRecord → List String
waiting_jobs [] = []
waiting_jobs ((id, job) ∷ rest) =
    let more = waiting_jobs rest in if is_waiting job.state then id ∷ more else more

-- The operations that have not ended and whose job is not one of those.
unfoldable pub untracked_of : List String → Dict OperationRecord → List String
untracked_of tracked [] = []
untracked_of tracked ((id, op) ∷ rest) =
    let more = untracked_of tracked rest in
    if not (is_terminal op.status) && not (contains tracked id) then id ∷ more else more

abbrev recovery_untracked : UserFacingError
recovery_untracked =
    user_error "OPERATION_RECOVERY_UNTRACKED"
      "Interrupted operation has no recoverable executor record." true
      ("reprobe" ∷ "retry_after_review" ∷ [])

abbrev pub untracked_changes : Changes
untracked_changes =
    record (progress "recovery_untracked"
      "No persisted executor job exists for the interrupted operation.") {
        error = some recovery_untracked;
      }

module _ (clock : ℕ → ℕ) where
  -- The second session of `_recover_job`.
  unfoldable pub apply_decision : String → JobRecord → RecoveryDecision → Database → Database
  unfolding changes_after
  apply_decision operation_id job decision db =
      let status = status_after decision.action in
      let db' = transition clock operation_id status (changes_after decision.action decision) db in
      audit clock operation_id ("operation.recovery." ++ action_value decision.action)
        ("recovery_" ++ action_value decision.action) (set_job clock operation_id job status db')

  recover_rows :
      Dict Registration → String → Option JobRecord → Option OperationRecord → Database → Database
  unfolding probe_of
  recover_rows registrations operation_id (some job) (some operation) db =
      let decision = probe_of operation_id job.payload_json (lookup job.kind registrations) in
      if is_terminal operation.status
      then set_job clock operation_id job operation.status db
      else apply_decision operation_id job decision db
  recover_rows registrations operation_id _ _ db = db

  unfoldable pub recover_job : Dict Registration → String → Database → Database
  unfolding recover_rows get
  recover_job registrations operation_id db =
      recover_rows registrations operation_id (lookup operation_id db.jobs) (get operation_id db) db

  unfoldable pub recover_each : Dict Registration → List String → Database → Database
  recover_each registrations [] db = db
  recover_each registrations (id ∷ ids) db =
      recover_each registrations ids (recover_job registrations id db)

  unfoldable pub fail_each : List String → Database → Database
  fail_each [] db = db
  fail_each (id ∷ ids) db = fail_each ids (transition clock id failed untracked_changes db)

  -- `_recover_persisted_jobs`
  unfoldable pub recover_persisted_jobs : Dict Registration → Database → Database
  recover_persisted_jobs registrations db =
      let tracked = waiting_jobs db.jobs in
      let db' = recover_each registrations tracked db in
      fail_each (untracked_of tracked db'.operations) db'
