-- ===== src/Configuration/History.antt =====
-- The sessions of the database and the history of revisions that `CcConnectConfigurationService` of
-- control_plane/configuration/service.py reads and writes.
use mathlib.Core.List
use ai_agent_desktop.Base.{
  ℕ, suc, ◌+◌, String, Bool, true, false, not, Option, none, some, List, [], ◌∷◌, ◌==◌, ltb, str_eq,
  if◌then◌else◌,
}
use ai_agent_desktop.Base.Dict.{lookup, insert}
use ai_agent_desktop.Configuration.Records.{
  ConfigurationPlan, PlanRecord, applied, active, superseded, RevisionRecord, BackupRecord,
  ManagedProcessRecord, Tables, ConfigurationCommit,
}
use ai_agent_desktop.Configuration.Disk.{
  Exception, sql_error, assertion_error, Platform, World, Attempt, ok, raised, Action,
  configuration_error,
}
use ai_agent_desktop.Errors.{UserFacingError, user_error}

-- `utcnow()` moves the clock on.
abbrev pub pass_time : Tables → Tables
pass_time t = record t { operations = record t.operations { ticks = suc t.operations.ticks } }

-- A session that raises or does not commit writes nothing; the time has passed all the same.
unfoldable pub rolled_back : Tables → Tables → Tables
rolled_back before after = record before {
  operations = record before.operations { ticks = after.operations.ticks };
}

unfoldable pub end_session : {A : Type 0} → Bool → World → Attempt A × Tables → Attempt A × World
unfolding rolled_back
end_session commits w (raised e, t) =
    (raised e, record w { tables = rolled_back w.tables t; calls = suc w.calls })
end_session true w (ok a, t) = (ok a, record w { tables = t; calls = suc w.calls })
end_session false w (ok a, t) =
    (raised sql_error, record w { tables = rolled_back w.tables t; calls = suc w.calls })

-- `with self.db.session() as session`
unfoldable pub session : {A : Type 0} → Platform → (Tables → Attempt A × Tables) → Action A
unfolding end_session
session p body w = end_session (p.commits w.calls) w (body w.tables)

-- `session.get(ConfigurationRevisionRecord, (COMPONENT_ID, revision))`
unfoldable pub find_revision : ℕ → List RevisionRecord → Option RevisionRecord
find_revision n [] = none
find_revision n (r ∷ rest) = if r.revision == n then some r else find_revision n rest

abbrev pub later_of : RevisionRecord → Option RevisionRecord → Option RevisionRecord
later_of r none = some r
later_of r (some q) = if ltb q.revision r.revision then some r else some q

-- The row of the greatest revision.
unfoldable pub latest_revision : List RevisionRecord → Option RevisionRecord
latest_revision [] = none
latest_revision (r ∷ rest) = later_of r (latest_revision rest)

unfoldable pub supersede : ℕ → List RevisionRecord → List RevisionRecord
supersede n [] = []
supersede n (r ∷ rest) =
    (if r.revision == n then record r { status = superseded } else r) ∷ supersede n rest

abbrev pub duplicate_error : UserFacingError
duplicate_error =
    user_error "CONFIGURATION_REVISION_DUPLICATE_CONFLICT"
      "Target revision already exists with a different digest." false
      ("inspect_configuration_state" ∷ [])

abbrev pub duplicate_conflict : Exception
duplicate_conflict = configuration_error duplicate_error

unfoldable pub revision_row : ℕ → ConfigurationPlan → ConfigurationCommit → RevisionRecord
revision_row now plan done = record {
  revision = plan.target_revision;
  artifact_id = done.configuration.artifact_id;
  product_instance_id = done.configuration.product_instance_id;
  plan_id = plan.plan_id;
  configuration_digest = done.digest;
  payload = done.configuration;
  status = active;
  created_at = now;
}

-- `if commit.backup_relative_path and commit.backup_digest`; neither is ever empty.
unfoldable pub with_backup :
    String → ℕ → ConfigurationPlan → ConfigurationCommit → List BackupRecord → List BackupRecord
with_backup operation_id now plan done backups = elim done.backup_relative_path [
  | none ↦ backups
  | some path ↦ elim done.backup_digest [
    | none ↦ backups
    | some digest ↦ List.◌++◌ backups (
        record {
          source_revision = plan.current_revision;
          operation_id = operation_id;
          relative_path = path;
          configuration_digest = digest;
          created_at = now;
        }
        ∷ [])
  ]
]

-- The row of the process, if it is there and has no process.
unfoldable pub moved_process :
    ℕ → ConfigurationPlan → ConfigurationCommit → ManagedProcessRecord → ManagedProcessRecord
moved_process now plan done m = elim m.pid [
  | some pid ↦ m
  | none ↦ record m {
    artifact_id = done.configuration.artifact_id;
    configuration_revision = plan.target_revision;
    observed_state = "stopped";
    updated_at = now;
  }
]

unfoldable pub moved :
    ℕ
    → ConfigurationPlan
    → ConfigurationCommit
    → Option ManagedProcessRecord
    → Option ManagedProcessRecord
moved now plan done none = none
moved now plan done (some m) = some (moved_process now plan done m)

unfoldable pub applied_row : ℕ → PlanRecord → PlanRecord
applied_row now row = record row { status = applied; applied_at = some now }

-- The rows of a new revision. Each part reads the clock, of which `n` is the next call.
unfoldable pub new_revision :
    (ℕ → ℕ)
    → ℕ
    → String
    → ConfigurationPlan
    → ConfigurationCommit
    → Tables
    → Attempt (Unit {0}) × Tables
unfolding supersede revision_row with_backup moved moved_process applied_row
new_revision clock n operation_id plan done t = elim (lookup plan.plan_id t.plans) [
  | none ↦ (raised assertion_error, t)
  | some row ↦ (
    ok tt,
    pass_time (
        pass_time (
          pass_time (
            pass_time (record t {
              revisions =
                  List.◌++◌ (supersede plan.current_revision t.revisions)
                    (revision_row (clock n) plan done ∷ []);
              backups = with_backup operation_id (clock (n + 1)) plan done t.backups;
              plans = insert plan.plan_id (applied_row (clock (n + 2)) row) t.plans;
              managed = moved (clock (n + 3)) plan done t.managed;
            })))),
  )
]

-- The body of `_record_commit`.
unfoldable pub record_rows :
    (ℕ → ℕ)
    → String
    → ConfigurationPlan
    → ConfigurationCommit
    → Tables
    → Attempt (Unit {0}) × Tables
unfolding find_revision new_revision
record_rows clock operation_id plan done t = elim (find_revision plan.target_revision t.revisions) [
  | some existing ↦
      if not (str_eq existing.configuration_digest done.digest)
      then (raised duplicate_conflict, t)
      else (ok tt, t)
  | none ↦ new_revision clock t.operations.ticks operation_id plan done t
]
