-- ===== src/Configuration/Applied.antt =====
-- What `execute_plan` of control_plane/configuration/service.py leaves of the file and of the history
-- from the commit on.
use ai_agent_desktop.Base.{ℕ, String, Bool, false, Option, none, some, ◌≡◌, inl, inr, arith}
use ai_agent_desktop.Errors.{UserFacingError}
use ai_agent_desktop.Configuration.Records.{
  Bytes, ManagedConfiguration, ConfigurationPlan, ConfigurationCommit,
}
use ai_agent_desktop.Configuration.Template.{Codec}
use ai_agent_desktop.Configuration.Disk.{
  Exception, configuration_error, installer_error, os_error, value_error, sql_error,
  assertion_error, Platform, World, Attempt, ok, raised, Attempt-cases,
}
use ai_agent_desktop.Configuration.History.{session}
use ai_agent_desktop.Configuration.Service.{Services}
use ai_agent_desktop.Configuration.Execute.{
  configuration_failed, restored_error, restore_or_repair, handle_failure, complete_operation,
  apply_failed,
}
use ai_agent_desktop.Configuration.Sessions.{Same}
use ai_agent_desktop.Configuration.Handled.{
  Restored, configuration_failed-Same, restored_error-Restored, restore_or_repair-Restored,
}

-- Nothing is returned as the result of the operation.
abbrev pub IsNoResult : Attempt (Option String) → Type 0
IsNoResult (ok (some _)) = ⊥
IsNoResult _ = Unit

-- The errors that the handlers of `execute_plan` are for.
abbrev IsHandled : Exception → Type 0
IsHandled (configuration_error _) = Unit
IsHandled (installer_error _) = Unit
IsHandled sql_error = Unit
IsHandled _ = ⊥

module _ (codec : Codec) (sha256 : Bytes → String)
    (validator : Bytes → Attempt ManagedConfiguration) (backup_path : String → ℕ → String)
    (result_text : ConfigurationPlan → String → String) (p : Platform) (services : Services)
    (operation_id plan_id : String) where
  module _ (reported : UserFacingError) (w : World) where
    failed-Same : Same w (
        configuration_failed codec sha256 validator backup_path result_text p services operation_id
          plan_id reported w)
    failed-Same =
        configuration_failed-Same codec sha256 validator backup_path result_text p services
          operation_id plan_id reported w

  pub handle_none :
      (e : Exception) (w : World)
      → let end =
          handle_failure codec sha256 validator backup_path result_text p services operation_id
            plan_id none false e w in
        IsNoResult end.0 × Same w end
  unfolding handle_failure restored_error restore_or_repair
  handle_none (configuration_error e) w = ground (arith, failed-Same e w)
  handle_none (installer_error e) w = ground (arith, failed-Same apply_failed w)
  handle_none sql_error w = ground (arith, failed-Same apply_failed w)
  handle_none os_error w = ground arith
  handle_none value_error w = ground arith
  handle_none assertion_error w = ground arith

  pub handle_sql :
      (done : ConfigurationCommit) (recorded : Bool) (w : World)
      → let end =
          handle_failure codec sha256 validator backup_path result_text p services operation_id
            plan_id
            (some done)
            recorded
            sql_error
            w in
        IsNoResult end.0 × Restored p done w end
  unfolding handle_failure
  handle_sql done recorded w =
      let restoring =
        restore_or_repair codec sha256 validator backup_path result_text p services operation_id
          (some done) w in
      let first =
        restore_or_repair-Restored codec sha256 validator backup_path result_text p services
          operation_id done w in
      elim (Attempt-cases restoring.0) [
        | inl (u, h) ↦ ground (arith, first, failed-Same apply_failed restoring.1)
        | inr (e, h) ↦ ground (arith, first)
      ]

  pub handle_configuration :
      (done : ConfigurationCommit) (error : UserFacingError) (w : World)
      → let end =
          handle_failure codec sha256 validator backup_path result_text p services operation_id
            plan_id
            (some done)
            false
            (configuration_error error)
            w in
        IsNoResult end.0 × Restored p done w end
  unfolding handle_failure
  handle_configuration done error w =
      let restoring =
        restored_error codec sha256 validator backup_path result_text p services (some done) false
          error w in
      let first =
        restored_error-Restored codec sha256 validator backup_path result_text p services done error
          w in
      elim (Attempt-cases restoring.0) [
        | inl (u, h) ↦ ground (arith, first, failed-Same u restoring.1)
        | inr (e, h) ↦ ground (arith, first)
      ]

  pub complete_operation-raises :
      (result : String) (w : World) (e : Exception)
      → (complete_operation codec sha256 validator backup_path result_text p services operation_id
          result w).0
        ≡ raised e
      → e ≡ sql_error
  unfolding complete_operation session
  complete_operation-raises result w e h = ground arith
