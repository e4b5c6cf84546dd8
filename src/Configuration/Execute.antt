-- ===== src/Configuration/Execute.antt =====
-- `execute_plan`, `confirm_plan` and `recovery_probe` of control_plane/configuration/service.py. The
-- result of an operation is a text of its own making, here `result_text`; diagnostics and technical
-- details are left out.
use mathlib.Core.List
use ai_agent_desktop.Base.{
  ℕ, String, Bool, true, false, Option, none, some, [], ◌∷◌, str_eq, if◌then◌else◌,
}
use ai_agent_desktop.Base.Dict.{lookup, insert}
use ai_agent_desktop.Errors.{UserFacingError}
use ai_agent_desktop.Operations.Records.{Database, OperationStatus}
use ai_agent_desktop.Operations.Store.{Changes, progress, transition}
use ai_agent_desktop.Operations.Executor.{audit}
use ai_agent_desktop.Configuration.Records.{
  Bytes, ManagedConfiguration, ConfigurationPlan, PlanStatus, PlanRecord, Tables,
  ConfigurationCommit,
}
use ai_agent_desktop.Configuration.Template.{Codec}
use ai_agent_desktop.Configuration.Disk.{
  Exception, configuration_error, installer_error, os_error, value_error, sql_error,
  assertion_error, Platform, Attempt, ok, Action, pure, raise, attempt, ◌>>=◌, ◌>>◌,
}
use ai_agent_desktop.Configuration.Store.{restore_commit}
use ai_agent_desktop.Configuration.Commit.{commit}
use ai_agent_desktop.Configuration.History.{pass_time, session, record_rows}
use ai_agent_desktop.Configuration.Service.{
  Services, load_execution_plan, check_cancellation, validate_plan_context, verified_current,
}

abbrev pub rollback_failed : UserFacingError
rollback_failed = record {
  code = "CONFIGURATION_ROLLBACK_FAILED";
  message = "Configuration metadata failed and pre-write bytes could not be restored.";
  retryable = false;
  recovery_actions = "inspect_pending_repair" ∷ [];
  diagnostic_id = none;
  operation_id = none;
}

abbrev pub apply_failed : UserFacingError
apply_failed = record {
  code = "CONFIGURATION_APPLY_FAILED";
  message = "Configuration apply did not complete and was rolled back where possible.";
  retryable = true;
  recovery_actions = "inspect_configuration_state" ∷ "retry_after_review" ∷ [];
  diagnostic_id = none;
  operation_id = none;
}

abbrev pub on_operations : (Database → Database) → Tables → Tables
on_operations f t = record t { operations = f t.operations }

-- `plan.status = ...` unless the plan is applied.
unfoldable pub settle_plan : PlanStatus → PlanRecord → PlanRecord
settle_plan status row = elim row.status [
  | PlanStatus.applied ↦ row
  | _ ↦ record row { status = status }
]

unfoldable pub settle_plans : String → PlanStatus → Tables → Tables
unfolding settle_plan
settle_plans plan_id status t = elim (lookup plan_id t.plans) [
  | none ↦ t
  | some row ↦ record t { plans = insert plan_id (settle_plan status row) t.plans }
]

module _ (codec : Codec) (sha256 : Bytes → String)
    (validator : Bytes → Attempt ManagedConfiguration) (backup_path : String → ℕ → String)
    (result_text : ConfigurationPlan → String → String) (p : Platform) (services : Services) where
  -- `_phase`
  unfoldable pub phase : String → String → String → Bool → Action (Unit {0})
  phase operation_id name message point_of_no_return = session p λ t. (
    ok tt,
    on_operations
        (λ db. audit services.clock operation_id "configuration.progress" name (
          transition services.clock operation_id OperationStatus.running
            (record (progress name message) { point_of_no_return = some point_of_no_return }) db))
        t,
  )

  -- `_complete`
  unfoldable pub complete_operation : String → String → Action (Unit {0})
  complete_operation operation_id result = session p λ t. (
    ok tt,
    on_operations
        (λ db. audit services.clock operation_id "configuration.applied" "configuration_applied" (
          transition services.clock operation_id OperationStatus.succeeded
            (record (progress "configuration_applied"
              "Confirmed product-managed configuration was applied.") { result = some result })
            db))
        t,
  )

  -- `_record_pending_repair`
  unfoldable pub record_pending_repair : String → String → Action (Unit {0})
  record_pending_repair operation_id reason = session p λ t. (
    ok tt,
    pass_time (record t {
      repairs = List.◌++◌ t.repairs (
          record {
            operation_id = operation_id;
            reason_code = reason;
            created_at = services.clock t.operations.ticks;
          }
          ∷ []);
    }),
  )

  failure_changes : UserFacingError → Bool → Changes
  failure_changes error true = progress "configuration_canceled" error.message
  failure_changes error false = record (progress "configuration_failed" error.message) {
    error = some error;
  }

  -- The session of `_configuration_failure`.
  unfoldable pub failure_rows : String → String → UserFacingError → Tables → Tables
  unfolding settle_plans failure_changes
  failure_rows operation_id plan_id error t =
      let canceled = str_eq error.code "OPERATION_CANCELED" in
      let t' =
        on_operations
          (transition services.clock operation_id
            (if canceled then OperationStatus.canceled else OperationStatus.failed)
            (failure_changes error canceled))
          t in
      on_operations (audit services.clock operation_id "configuration.failed" error.code)
        (settle_plans plan_id (if canceled then PlanStatus.canceled else PlanStatus.failed) t')

  -- `_configuration_failure`
  unfoldable pub configuration_failed : String → String → UserFacingError → Action (Unit {0})
  configuration_failed operation_id plan_id error = do
    session p λ t. (ok tt, failure_rows operation_id plan_id error t)
    (if str_eq error.code "CONFIGURATION_ROLLBACK_FAILED"
        then record_pending_repair operation_id error.code
        else pure tt)

  -- What is reported for a `ConfigurationError`, after the restoring that it calls for.
  unfoldable pub restored_error :
      Option ConfigurationCommit → Bool → UserFacingError → Action UserFacingError
  restored_error (some done) false error =
      attempt (restore_commit p done)
        (λ e. elim e [
          | configuration_error _ ↦ pure rollback_failed
          | installer_error i ↦ raise (installer_error i)
          | os_error ↦ raise os_error
          | value_error ↦ raise value_error
          | sql_error ↦ raise sql_error
          | assertion_error ↦ raise assertion_error
        ])
        (λ _. pure error)
  restored_error _ _ error = pure error

  -- The restoring for another `InstallerError` and for a `SQLAlchemyError`.
  unfoldable pub restore_or_repair : String → Option ConfigurationCommit → Action (Unit {0})
  unfolding record_pending_repair
  restore_or_repair operation_id none = pure tt
  restore_or_repair operation_id (some done) =
      attempt (restore_commit p done)
        (λ e. elim e [
          | configuration_error _ ↦
              record_pending_repair operation_id "CONFIGURATION_DATABASE_COMMIT_ROLLBACK_FAILED"
          | installer_error i ↦ raise (installer_error i)
          | os_error ↦ raise os_error
          | value_error ↦ raise value_error
          | sql_error ↦ raise sql_error
          | assertion_error ↦ raise assertion_error
        ])
        (λ _. pure tt)

  -- The handlers of `execute_plan`, by the values of `commit` and `commit_recorded`.
  unfoldable pub handle_failure :
      String → String → Option ConfigurationCommit → Bool → Exception → Action (Option String)
  handle_failure operation_id plan_id made recorded (configuration_error error) = do
    reported ← restored_error made recorded error
    configuration_failed operation_id plan_id reported
    pure none
  handle_failure operation_id plan_id made recorded (installer_error error) = do
    restore_or_repair operation_id made
    configuration_failed operation_id plan_id apply_failed
    pure none
  handle_failure operation_id plan_id made recorded sql_error = do
    restore_or_repair operation_id made
    configuration_failed operation_id plan_id apply_failed
    pure none
  handle_failure operation_id plan_id made recorded os_error = raise os_error
  handle_failure operation_id plan_id made recorded value_error = raise value_error
  handle_failure operation_id plan_id made recorded assertion_error = raise assertion_error

  -- The checks of a loaded plan, and the digest that the file must have.
  unfoldable pub checked_plan : String → PlanRecord → Action (PlanRecord × Option String)
  checked_plan operation_id row = do
    check_cancellation codec sha256 validator backup_path p services operation_id
    validate_plan_context codec sha256 validator backup_path p services row.plan
    current ← verified_current codec sha256 validator backup_path p services
    phase operation_id "configuration_commit" "Atomically replacing product-managed configuration"
        true
    pure (row, current.1)

  -- What precedes the commit.
  unfoldable pub preflight : String → String → Action (PlanRecord × Option String)
  preflight operation_id plan_id = do
    phase operation_id "configuration_preflight" "Revalidating confirmed plan" false
    row ← load_execution_plan codec sha256 validator backup_path p services plan_id
    checked_plan operation_id row

  -- From the commit on.
  unfoldable pub apply_plan : String → String → PlanRecord → Option String → Action (Option String)
  apply_plan operation_id plan_id row expected =
      attempt (commit codec sha256 validator backup_path p row.target operation_id expected)
        (handle_failure operation_id plan_id none false)
        λ done.
          attempt (session p (record_rows services.clock operation_id row.plan done))
            (handle_failure operation_id plan_id (some done) false)
            λ _.
              attempt (complete_operation operation_id (result_text row.plan done.digest))
                (handle_failure operation_id plan_id (some done) true)
                λ _. pure (some (result_text row.plan done.digest))

  unfoldable pub execute_plan : String → String → Action (Option String)
  execute_plan operation_id plan_id =
      attempt (preflight operation_id plan_id) (handle_failure operation_id plan_id none false)
        λ found. apply_plan operation_id plan_id found.0 found.1
