-- ===== src/Configuration/Recover.antt =====
-- `recovery_probe` of control_plane/configuration/service.py: what becomes of an execution that a
-- restart interrupted. `recovered_text` is the result of its own making, from revision and digest.
use ai_agent_desktop.Base.{
  ℕ, String, true, Option, none, some, List, [], ◌∷◌, opt_str_eq, if◌then◌else◌,
}
use ai_agent_desktop.Base.Dict.{lookup, insert}
use ai_agent_desktop.Errors.{UserFacingError, user_error}
use ai_agent_desktop.Operations.Executor.{RecoveryDecision, RecoveryAction}
use ai_agent_desktop.Operations.Recovery.{failing}
use ai_agent_desktop.Configuration.Records.{
  Bytes, ManagedConfiguration, PlanStatus, PlanRecord, RevisionRecord, Tables,
}
use ai_agent_desktop.Configuration.Template.{Codec}
use ai_agent_desktop.Configuration.Disk.{
  configuration_error, installer_error, os_error, value_error, sql_error, assertion_error, Platform,
  Attempt, ok, raised, Action, pure, raise, attempt, ◌>>=◌, ◌>>◌,
}
use ai_agent_desktop.Configuration.Commit.{digest}
use ai_agent_desktop.Configuration.History.{session, find_revision, pass_time}
use ai_agent_desktop.Configuration.Service.{Services, is_confirmed, validate_plan_context}

-- `recovery_actions or [...]`
abbrev pub or_default : List String → List String
or_default [] = "inspect_state" ∷ "retry_after_review" ∷ []
or_default (a ∷ rest) = a ∷ rest

unfoldable pub failing_with : UserFacingError → RecoveryDecision
failing_with e = record {
  action = RecoveryAction.fail;
  result = none;
  error = some (user_error e.code e.message true (or_default e.recovery_actions));
}

abbrev pub requeueing : RecoveryDecision
requeueing = record { action = RecoveryAction.requeue; result = none; error = none }

-- The row of the plan with the row of its revision, as far as they are there.
unfoldable pub probed_rows : String → Tables → Option (PlanRecord × Option RevisionRecord)
probed_rows plan_id t = elim (lookup plan_id t.plans) [
  | none ↦ none
  | some row ↦ some (row, find_revision row.target_revision t.revisions)
]

-- `record.applied_at or utcnow()`
abbrev pub applied_since : Option ℕ → ℕ → Option ℕ
applied_since none now = some now
applied_since (some before) now = some before

unfoldable pub mark_applied : (ℕ → ℕ) → String → Tables → Attempt (Unit {0}) × Tables
mark_applied clock plan_id t = elim (lookup plan_id t.plans) [
  | none ↦ (raised assertion_error, t)
  | some row ↦ (
    ok tt,
    pass_time (record t {
      plans =
          insert plan_id
            (record row {
              status = PlanStatus.applied;
              applied_at = applied_since row.applied_at (clock t.operations.ticks);
            })
            t.plans;
    }),
  )
]

module _ (codec : Codec) (sha256 : Bytes → String)
    (validator : Bytes → Attempt ManagedConfiguration) (backup_path : String → ℕ → String)
    (recovered_text : ℕ → String → String) (p : Platform) (services : Services) where
  -- A plan whose revision is not proven on the disk.
  unfoldable pub probe_unproven : PlanRecord → Action RecoveryDecision
  probe_unproven row =
      if is_confirmed row.status
      then attempt (validate_plan_context codec sha256 validator backup_path p services row.plan)
          (λ e. elim e [
            | configuration_error error ↦ pure (failing_with error)
            | installer_error i ↦ raise (installer_error i)
            | os_error ↦ raise os_error
            | value_error ↦ raise value_error
            | sql_error ↦ raise sql_error
            | assertion_error ↦ raise assertion_error
          ])
          (λ _. pure requeueing)
      else pure (failing "CONFIGURATION_RECOVERY_STATE_CONFLICT")

  unfoldable pub probe_revision :
      String → PlanRecord → RevisionRecord → Option String → Action RecoveryDecision
  probe_revision plan_id row revision found =
      if opt_str_eq found (some revision.configuration_digest)
      then (do
        session p (mark_applied services.clock plan_id)
        pure (record {
          action = RecoveryAction.complete;
          result = some (recovered_text revision.revision revision.configuration_digest);
          error = none;
        }))
      else probe_unproven row

  unfoldable pub probe_rows :
      String → Option (PlanRecord × Option RevisionRecord) → Action RecoveryDecision
  probe_rows plan_id none = pure (failing "CONFIGURATION_PLAN_NOT_FOUND")
  probe_rows plan_id (some (row, none)) = probe_unproven row
  probe_rows plan_id (some (row, some revision)) = do
    found ← digest codec sha256 validator backup_path p
    probe_revision plan_id row revision found

  unfoldable pub recovery_probe : String → Action RecoveryDecision
  recovery_probe plan_id = do
    rows ← session p λ t. (ok (probed_rows plan_id t), t)
    probe_rows plan_id rows
