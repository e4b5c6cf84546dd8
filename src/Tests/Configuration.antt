-- ===== src/Tests/Configuration.antt =====
-- The configuration of control_plane/configuration at concrete inputs.
use mathlib.Core.Option
use ai_agent_desktop.Base.{
  ℕ, String, true, false, not, Option, none, some, [], ◌∷◌, ◌≡◌, ◌⊎◌, refl, arith, ◌==◌,
  if◌then◌else◌,
}
use ai_agent_desktop.Base.Dict.{lookup, insert}
use ai_agent_desktop.Errors
use ai_agent_desktop.Operations.Store.{Created, create, transition}
use ai_agent_desktop.Operations.Executor.{audit}
use ai_agent_desktop.Configuration.Records.{
  Bytes, ManagementOwner, LifecycleOwner, ManagedConfiguration, ConfigurationPlan, PlanRecord,
  PlanStatus, confirmed, waiting_for_confirmation, active, ConfigurationCommit, is_same,
}
use ai_agent_desktop.Configuration.Template.{Codec, render_managed_toml, parse_managed_toml}
use ai_agent_desktop.Configuration.Disk.{value_error, fine, Platform, World, Attempt, ok, raised}
use ai_agent_desktop.Configuration.Store.{
  ask_layout, assert_safe, read_bytes, atomic_write, restore_previous, restore_commit,
}
use ai_agent_desktop.Configuration.Commit.{
  parsed, check_written, checked_previous, save_backup, relative_backup, write_configuration,
  replace_file, commit, read, configuration_digest, parsed_file,
}
use ai_agent_desktop.Configuration.Refusals.{manual_drift}
use ai_agent_desktop.Configuration.History.{pass_time, session, record_rows, latest_revision}
use ai_agent_desktop.Configuration.Service.{
  Services, owners, management_of, lifecycle_of, checked_record, port_is_free, context_digest,
  loaded_row, check_digests, load_execution_plan, check_cancellation, validate_plan_context,
  verified_current, current_of, utcnow,
}
use ai_agent_desktop.Configuration.Execute.{
  phase, complete_operation, configuration_failed, failure_rows, restore_or_repair, handle_failure,
  checked_plan, preflight, apply_plan, execute_plan,
}
use ai_agent_desktop.Configuration.Executed.{IsCarriedOut, IsRefused, execute_plan-Executed}
use ai_agent_desktop.Configuration.Committed.{Committed, commit-Committed}
use ai_agent_desktop.Configuration.Recoverable.{HasBackup, commit-HasBackup, restore_commit-commit}
use ai_agent_desktop.Configuration.Confirm.{
  ConfirmationRequest, confirm_plan, confirm_row, confirm_rows, is_mismatch, awaits_confirmation,
  created, already_used, confirmation_mismatch,
}
use ai_agent_desktop.Lifecycle.Ports.{is_available}
use ai_agent_desktop.Configuration.Confirmed.{confirm_once}
use ai_agent_desktop.Configuration.Planning.{
  PlanRequest, create_plan, admitted, rolled_back_to, chosen_port, target_of, sealed_row,
  is_managed_by_product, is_run_by_product, is_running,
}
use ai_agent_desktop.Configuration.Planned.{Filed, create_plan-Filed}
use ai_agent_desktop.Configuration.Recover.{recovery_probe}
use ai_agent_desktop.Configuration.Justified.{Justified, recovery_probe-Justified}

abbrev text_of : Bytes → String
text_of [] = "empty"
text_of (x ∷ _) = if x == 1 then "one" else "two"

abbrev configuration_of : ℕ → ManagedConfiguration
configuration_of revision = record {
  artifact_id = "cc-1";
  product_instance_id = "instance-0";
  listen_port = 59000;
  data_dir = "data";
  log_dir = "logs";
  project_root = "project";
  lifecycle_owner = LifecycleOwner.product;
  management_owner = ManagementOwner.product;
  configuration_revision = revision;
  created_at = 0;
  updated_at = revision;
  secret_refs = [];
  health_probe = record { startup_timeout_seconds = 10; stable_window_seconds = 3 };
}

-- The text of every configuration is the byte 1, which is read as the second revision.
abbrev codec : Codec
codec = record {
  dumps = λ a. a;
  decimal = λ n. "n";
  isoformat = λ n. "t";
  encode = λ a. 1 ∷ [];
  loads = λ raw. elim raw [ [] ↦ none | x ∷ _ ↦ some (configuration_of (if x == 1 then 2 else 1)) ];
}

abbrev reread : Bytes → Attempt ManagedConfiguration
reread [] = raised value_error
reread (x ∷ _) = ok (configuration_of (if x == 1 then 2 else 1))

abbrev path_at : String → ℕ → String
path_at operation_id revision = "backups/op-1/configuration-r1.toml"

abbrev sound : Platform
sound = record {
  layout_error = λ n. none;
  config_dir_is_link = λ n. false;
  make_directory = λ n. true;
  is_writable = λ n. true;
  replace = λ n. fine;
  read = λ n. fine;
  unlink = λ n. fine;
  commits = λ n. true;
}

abbrev services : Services
services = record {
  clock = λ n. n;
  current_artifact = λ n. Errors.ok "cc-1";
  artifact_context = λ n. Errors.ok "artifact";
  can_bind = λ n host port. true;
  hash_context = λ c. "context";
  hash_plan = λ plan d. "digest";
}

abbrev plan_row : PlanStatus → PlanRecord
plan_row status = record {
  plan = record {
    plan_id = "plan-1";
    plan_digest = "digest";
    context_digest = "context";
    artifact_id = "cc-1";
    current_revision = 1;
    target_revision = 2;
    current_owner = ManagementOwner.product;
    port = 59000;
    secret_refs = [];
    rollback_to_revision = none;
    created_at = 0;
    expires_at = 1000;
  };
  target = configuration_of 2;
  plan_digest = "digest";
  status = status;
  target_revision = 2;
  confirmed_at = none;
  applied_at = none;
}

-- The first revision is in place, and a plan for the second.
abbrev planned : PlanStatus → World
planned status = record {
  file = some (2 ∷ []);
  backup_files = [];
  tables = record {
    operations = record { operations = []; jobs = []; idempotency = []; events = []; ticks = 0 };
    plans = ("plan-1", plan_row status) ∷ [];
    revisions =
        record {
          revision = 1;
          artifact_id = "cc-1";
          product_instance_id = "instance-0";
          plan_id = "plan-0";
          configuration_digest = "sha256:two";
          payload = configuration_of 1;
          status = active;
          created_at = 0;
        }
        ∷ [];
    backups = [];
    repairs = [];
    managed = none;
  };
  calls = 0;
}

abbrev result_at : ConfigurationPlan → String → String
result_at plan d = d

abbrev run : Platform → Attempt (Option String) × World
run p =
    execute_plan codec text_of reread path_at result_at p services "op-1" "plan-1"
      (planned confirmed)

-- The plan of the run stands under its own identifier.
plans-keyed :
    (row : PlanRecord)
    → lookup "plan-1" (planned confirmed).tables.plans ≡ some row
    → row.plan.plan_id ≡ "plan-1"
unfolding lookup
plans-keyed row h = ground (arith, h)

abbrev CarriedOut : Attempt (Option String) × World → Type 0
CarriedOut end =
    IsRefused codec text_of reread path_at result_at sound services "op-1" "plan-1"
      (planned confirmed) end
    ⊎ IsCarriedOut codec text_of reread path_at result_at sound services "op-1" "plan-1"
        (planned confirmed) end

execute_plan-Executed_example : CarriedOut (run sound)
execute_plan-Executed_example =
    execute_plan-Executed codec text_of reread path_at result_at sound services "op-1" "plan-1"
      (planned confirmed) plans-keyed

-- The file and the result after an execution that succeeds.
execution_applies : ((run sound).0 ≡ ok (some "sha256:one")) × ((run sound).1.file ≡ some (1 ∷ []))
unfolding execute_plan apply_plan preflight checked_plan phase complete_operation session
    load_execution_plan loaded_row check_digests check_cancellation validate_plan_context
    verified_current current_of read_bytes read context_digest commit checked_previous save_backup
    relative_backup replace_file write_configuration check_written record_rows atomic_write
    assert_safe ask_layout lookup insert latest_revision is_same configuration_digest
    parse_managed_toml owners audit transition render_managed_toml
execution_applies = (refl, refl)

-- Only the last session, which completes the operation, does not commit.
abbrev forgetful : Platform
forgetful = record sound { commits = λ n. not (n == 65) }

-- Then the file is restored and the history is not: the next check of the two finds a drift.
execution_drifts :
    ((run forgetful).1.file ≡ some (2 ∷ []))
    × ((verified_current codec text_of reread path_at sound services (run forgetful).1).0
        ≡ raised manual_drift)
unfolding execute_plan apply_plan preflight checked_plan phase complete_operation session
    load_execution_plan loaded_row check_digests check_cancellation validate_plan_context
    verified_current current_of read_bytes read context_digest commit checked_previous save_backup
    relative_backup replace_file write_configuration check_written record_rows atomic_write
    assert_safe ask_layout lookup insert latest_revision is_same configuration_digest
    parse_managed_toml owners audit transition render_managed_toml handle_failure restore_or_repair
    restore_commit restore_previous configuration_failed failure_rows
execution_drifts = (refl, refl)

abbrev committing : Attempt ConfigurationCommit × World
committing =
    commit codec text_of reread path_at sound (configuration_of 2) "op-1" (some "sha256:two")
      (planned confirmed)

commit-Committed_example :
    Committed codec text_of reread path_at sound
      (configuration_of 2)
      (some "sha256:two")
      (planned confirmed)
      committing
commit-Committed_example =
    commit-Committed codec text_of reread path_at sound (configuration_of 2) "op-1"
      (some "sha256:two") (planned confirmed)

commit-HasBackup_example :
    HasBackup codec text_of reread path_at sound "op-1" (configuration_of 2) (2 ∷ []) committing
commit-HasBackup_example =
    commit-HasBackup codec text_of reread path_at sound (configuration_of 2) "op-1"
      (some "sha256:two") (2 ∷ []) (planned confirmed) refl

abbrev made : ConfigurationCommit
made = record {
  configuration = configuration_of 2;
  digest = "sha256:one";
  backup_relative_path = some "backups/op-1/configuration-r1.toml";
  backup_digest = some "sha256:two";
  previous_bytes = some (2 ∷ []);
}

committing-made : committing ≡ (ok made, committing.1)
unfolding read_bytes commit checked_previous save_backup relative_backup replace_file
    write_configuration check_written atomic_write assert_safe ask_layout insert is_same
    configuration_digest parse_managed_toml render_managed_toml
committing-made = refl

abbrev restoring : Attempt (Unit {0}) × World
restoring = restore_commit sound made committing.1

restoring-ok : restoring ≡ (ok tt, restoring.1)
unfolding restore_commit restore_previous read_bytes commit checked_previous save_backup
    relative_backup replace_file write_configuration check_written atomic_write assert_safe
    ask_layout insert is_same configuration_digest parse_managed_toml render_managed_toml
restoring-ok = refl

restore_commit-commit_example : restoring.1.file ≡ some (2 ∷ [])
restore_commit-commit_example =
    restore_commit-commit codec text_of reread path_at sound (configuration_of 2) "op-1"
      (some "sha256:two") (planned confirmed) committing.1 restoring.1 made committing-made
      restoring-ok

abbrev request : ConfirmationRequest
request = record {
  plan_id = "plan-1";
  plan_digest = "digest";
  current_revision = 1;
  target_revision = 2;
  confirmation = true;
}

abbrev confirming : String → String → World → Attempt Created × World
confirming op_id key =
    confirm_plan codec text_of reread path_at sound services (λ a. a) op_id key "body" request

abbrev first_confirmation : Attempt Created × World
first_confirmation = confirming "op-1" "key-1" (planned waiting_for_confirmation)

abbrev first_answer : Created
first_answer =
    (created services (λ a. a) "op-1" "key-1" "body"
      (pass_time (planned waiting_for_confirmation).tables)).0

first_confirmation-ok : first_confirmation ≡ (ok first_answer, first_confirmation.1)
unfolding confirm_plan confirm_row confirm_rows created create is_mismatch awaits_confirmation
    lookup insert validate_plan_context utcnow verified_current current_of read_bytes read
    parsed_file parsed parse_managed_toml assert_safe ask_layout session latest_revision
    context_digest owners port_is_free is_available configuration_digest
first_confirmation-ok = refl

other_key : lookup "key-2" first_confirmation.1.tables.operations.idempotency ≡ none
unfolding confirm_plan confirm_row confirm_rows created create is_mismatch awaits_confirmation
    lookup insert validate_plan_context utcnow verified_current current_of read_bytes read
    parsed_file parsed parse_managed_toml assert_safe ask_layout session latest_revision
    context_digest owners port_is_free is_available configuration_digest
other_key = refl

no_key : lookup "key-1" (planned waiting_for_confirmation).tables.operations.idempotency ≡ none
unfolding lookup
no_key = refl

confirm_once_example :
    (((confirming "op-2" "key-2" first_confirmation.1).0 ≡ raised confirmation_mismatch)
      ⊎ ((confirming "op-2" "key-2" first_confirmation.1).0 ≡ raised already_used))
    × ((confirming "op-2" "key-2" first_confirmation.1).1 ≡ first_confirmation.1)
confirm_once_example =
    confirm_once codec text_of reread path_at sound services (λ a. a) "op-1" "key-1" "body" request
      first_answer (planned waiting_for_confirmation) first_confirmation.1 no_key
      first_confirmation-ok "op-2" "key-2" "body" request refl other_key

recovery_probe-Justified_example :
    Justified codec text_of reread path_at
      (λ n d. d)
      sound
      services
      "plan-1"
      (run sound).1
      (recovery_probe codec text_of reread path_at (λ n d. d) sound services "plan-1" (run sound).1)
recovery_probe-Justified_example =
    recovery_probe-Justified codec text_of reread path_at (λ n d. d) sound services "plan-1"
      (run sound).1

-- The digest of a plan is made from its identifier.
abbrev by_identifier : Services
by_identifier = record services { hash_plan = λ plan d. plan.plan_id }

-- The product runs the program, which is stopped.
abbrev stopped : World
stopped = record (planned confirmed) {
  tables = record (planned confirmed).tables {
    managed = some (record {
      artifact_id = "cc-1";
      configuration_revision = 1;
      pid = none;
      observed_state = "stopped";
      management_owner = "product";
      lifecycle_owner = "product";
      updated_at = 0;
    });
  };
}

abbrev any_port : PlanRequest
any_port = record { listen_port = none; expires_in_seconds = 900; rollback_to_revision = none }

abbrev planning : Attempt ConfigurationPlan × World
planning =
    create_plan codec text_of reread path_at sound by_identifier (λ n. false) (λ root. root)
      "instance-0" "plan-2" any_port stopped

abbrev made_plan : Attempt ConfigurationPlan → Option ConfigurationPlan
made_plan (ok plan) = some plan
made_plan (raised e) = none

-- A plan for the second revision is made, on the port of the first.
planning_succeeds :
    (Option.map (λ plan. plan.target_revision) (made_plan planning.0) ≡ some 2)
    × (Option.map (λ plan. plan.port) (made_plan planning.0) ≡ some 59000)
unfolding create_plan admitted rolled_back_to chosen_port target_of sealed_row is_managed_by_product
    is_run_by_product is_running owners management_of lifecycle_of verified_current current_of
    checked_record read_bytes read parsed_file parsed parse_managed_toml assert_safe ask_layout
    session latest_revision port_is_free is_available context_digest configuration_digest utcnow
    insert
planning_succeeds = (refl, refl)

create_plan-Filed_example :
    Filed codec text_of reread path_at sound by_identifier "plan-2" any_port stopped planning
create_plan-Filed_example =
    create_plan-Filed codec text_of reread path_at sound by_identifier (λ n. false) (λ root. root)
      "instance-0" "plan-2" any_port stopped
