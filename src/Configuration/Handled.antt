-- ===== src/Configuration/Handled.antt =====
-- What the handlers of `execute_plan`, control_plane/configuration/service.py, leave of the file and
-- of the history.
use ai_agent_desktop.Base.{ℕ, String, Bool, false, some, ◌≡◌, refl, ◌⊎◌, inl, inr, arith}
use ai_agent_desktop.Errors.{UserFacingError}
use ai_agent_desktop.Configuration.Records.{
  Bytes, ManagedConfiguration, ConfigurationPlan, ConfigurationCommit, Tables,
}
use ai_agent_desktop.Configuration.Template.{Codec}
use ai_agent_desktop.Configuration.Disk.{
  Platform, World, Attempt, ok, raised, Exception, Attempt-cases,
}
use ai_agent_desktop.Configuration.Store.{restore_commit, restore_previous}
use ai_agent_desktop.Configuration.Atomic.{restored_cases}
use ai_agent_desktop.Configuration.Kept.{tables-restore_previous}
use ai_agent_desktop.Configuration.History.{session}
use ai_agent_desktop.Configuration.Service.{Services}
use ai_agent_desktop.Configuration.Execute.{
  configuration_failed, record_pending_repair, restored_error, restore_or_repair, failure_rows,
  phase, complete_operation,
}
use ai_agent_desktop.Configuration.Sessions.{Same, session-Same}

-- Restoring the previous bytes in this world fails.
pub record IsStuck (p : Platform) (done : ConfigurationCommit) (w : World) : Type 0 where
  pub exception : Exception
  pub fails : (restore_commit p done w).0 ≡ raised exception

-- The previous bytes are back, since restoring them returned, or the file is as it was, since that
-- failed.
abbrev pub Restored : {A : Type 0} → Platform → ConfigurationCommit → World → A × World → Type 0
Restored p done before (_, w) =
    (w.tables.revisions ≡ before.tables.revisions)
    × (((w.file ≡ done.previous_bytes) × ((restore_commit p done before).0 ≡ ok tt))
        ⊎ ((w.file ≡ before.file) × IsStuck p done before))

module _ (codec : Codec) (sha256 : Bytes → String)
    (validator : Bytes → Attempt ManagedConfiguration) (backup_path : String → ℕ → String)
    (result_text : ConfigurationPlan → String → String) (p : Platform) (services : Services) where
  pub complete_operation-Same :
      (operation_id result : String) (w : World)
      → Same w (
          complete_operation codec sha256 validator backup_path result_text p services operation_id
            result w)
  unfolding complete_operation
  complete_operation-Same operation_id result w = session-Same p _ w refl

  pub phase-Same :
      (operation_id name message : String) (final : Bool) (w : World)
      → Same w (
          phase codec sha256 validator backup_path result_text p services operation_id name message
            final w)
  unfolding phase
  phase-Same operation_id name message final w = session-Same p _ w refl

  record_pending_repair-Same :
      (operation_id reason : String) (w : World)
      → Same w (
          record_pending_repair codec sha256 validator backup_path result_text p services
            operation_id reason w)
  unfolding record_pending_repair
  record_pending_repair-Same operation_id reason w = session-Same p _ w refl

  revisions-failure_rows :
      (operation_id plan_id : String) (error : UserFacingError) (t : Tables)
      → (failure_rows codec sha256 validator backup_path result_text p services operation_id plan_id
          error t).revisions
        ≡ t.revisions
  unfolding failure_rows
  revisions-failure_rows operation_id plan_id error t = ground arith

  pub configuration_failed-Same :
      (operation_id plan_id : String) (error : UserFacingError) (w : World)
      → Same w (
          configuration_failed codec sha256 validator backup_path result_text p services
            operation_id plan_id error w)
  unfolding configuration_failed
  configuration_failed-Same operation_id plan_id error w =
      let body : Tables → Attempt (Unit {0}) × Tables = λ t. (
        ok tt,
        failure_rows codec sha256 validator backup_path result_text p services operation_id plan_id
            error t,
      ) in
      let failed = session p body w in
      let first =
        session-Same p body w (revisions-failure_rows operation_id plan_id error w.tables) in
      elim (Attempt-cases failed.0) [
        | inr (e, h) ↦ ground (arith, first)
        | inl (u, h) ↦
            ground (arith, first, record_pending_repair-Same operation_id error.code failed.1)
      ]

  pub restored_error-Restored :
      (done : ConfigurationCommit) (error : UserFacingError) (w : World)
      → Restored p done w (
          restored_error codec sha256 validator backup_path result_text p services
            (some done)
            false
            error
            w)
  unfolding restored_error restore_commit
  restored_error-Restored done error w = elim (restored_cases p done.previous_bytes w) [
    | inl (r, f) ↦ ground (arith, tables-restore_previous p done.previous_bytes w)
    | inr (e, r, f, u) ↦
        let after = (restore_previous p done.previous_bytes w).1 in
        let stuck : IsStuck p done w = record { exception = e; fails = r } in
        ground (arith, stuck, tables-restore_previous p done.previous_bytes w)
  ]

  pub restore_or_repair-Restored :
      (operation_id : String) (done : ConfigurationCommit) (w : World)
      → Restored p done w (
          restore_or_repair codec sha256 validator backup_path result_text p services operation_id
            (some done)
            w)
  unfolding restore_or_repair restore_commit
  restore_or_repair-Restored operation_id done w = elim (restored_cases p done.previous_bytes w) [
    | inl (r, f) ↦ ground (arith, tables-restore_previous p done.previous_bytes w)
    | inr (e, r, f, u) ↦
        let after = (restore_previous p done.previous_bytes w).1 in
        let stuck : IsStuck p done w = record { exception = e; fails = r } in
        ground (
          arith,
          stuck,
          tables-restore_previous p done.previous_bytes w,
          record_pending_repair-Same operation_id "CONFIGURATION_DATABASE_COMMIT_ROLLBACK_FAILED"
              after,
        )
  ]
