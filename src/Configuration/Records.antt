-- ===== src/Configuration/Records.antt =====
-- control_plane/configuration/models.py, the rows of control_plane/persistence/models.py that the
-- configuration uses, and `ConfigurationCommit` of control_plane/configuration/config_store.py. A
-- field of one literal value is left out, and a JSON column holds the value itself.
use native.Mathlib.Decide.{ℕ_discrete}
use ai_agent_desktop.Base.{ℕ, String, Bool, true, false, Option, List, ◌≡◌, refl, str_eq, eq_iff}
use ai_agent_desktop.Base.Dict.{Dict}
use ai_agent_desktop.Operations.Records.{Database}

abbrev pub Bytes : Type 0
Bytes = List ℕ

pub data ManagementOwner : Type 0 where
  external product unmanaged conflict unknown : ManagementOwner

pub data LifecycleOwner : Type 0 where
  external product none conflict unknown : LifecycleOwner

pub record SecretReference : Type 0 where
  pub reference_id : String
  pub backend : String
  pub purpose : String
  pub required : Bool

pub record HealthProbeConfiguration : Type 0 where
  pub startup_timeout_seconds : ℕ
  pub stable_window_seconds : ℕ

pub record ManagedConfiguration : Type 0 where
  pub artifact_id : String
  pub product_instance_id : String
  pub listen_port : ℕ
  pub data_dir : String
  pub log_dir : String
  pub project_root : String
  pub lifecycle_owner : LifecycleOwner
  pub management_owner : ManagementOwner
  pub configuration_revision : ℕ
  pub created_at : ℕ
  pub updated_at : ℕ
  pub secret_refs : List SecretReference
  pub health_probe : HealthProbeConfiguration

-- A plan has exactly one port. Its texts for the reader are left out.
pub record ConfigurationPlan : Type 0 where
  pub plan_id : String
  pub plan_digest : String
  pub context_digest : String
  pub artifact_id : String
  pub current_revision : ℕ
  pub target_revision : ℕ
  pub current_owner : ManagementOwner
  pub port : ℕ
  pub secret_refs : List SecretReference
  pub rollback_to_revision : Option ℕ
  pub created_at : ℕ
  pub expires_at : ℕ

-- What the digest of a plan is made from: `model_dump` with `exclude={"plan_digest"}`.
pub record PlanPayload : Type 0 where
  pub plan_id : String
  pub context_digest : String
  pub artifact_id : String
  pub current_revision : ℕ
  pub target_revision : ℕ
  pub current_owner : ManagementOwner
  pub port : ℕ
  pub secret_refs : List SecretReference
  pub rollback_to_revision : Option ℕ
  pub created_at : ℕ
  pub expires_at : ℕ

abbrev pub payload_of : ConfigurationPlan → PlanPayload
payload_of plan = record {
  plan_id = plan.plan_id;
  context_digest = plan.context_digest;
  artifact_id = plan.artifact_id;
  current_revision = plan.current_revision;
  target_revision = plan.target_revision;
  current_owner = plan.current_owner;
  port = plan.port;
  secret_refs = plan.secret_refs;
  rollback_to_revision = plan.rollback_to_revision;
  created_at = plan.created_at;
  expires_at = plan.expires_at;
}

pub data PlanStatus : Type 0 where
  waiting_for_confirmation confirmed applied canceled failed : PlanStatus

pub record PlanRecord : Type 0 where
  pub plan : ConfigurationPlan
  pub target : ManagedConfiguration
  pub plan_digest : String
  pub status : PlanStatus
  pub target_revision : ℕ
  pub confirmed_at : Option ℕ
  pub applied_at : Option ℕ

pub data RevisionStatus : Type 0 where
  active superseded : RevisionStatus

pub record RevisionRecord : Type 0 where
  pub revision : ℕ
  pub artifact_id : String
  pub product_instance_id : String
  pub plan_id : String
  pub configuration_digest : String
  pub payload : ManagedConfiguration
  pub status : RevisionStatus
  pub created_at : ℕ

pub record BackupRecord : Type 0 where
  pub source_revision : ℕ
  pub operation_id : String
  pub relative_path : String
  pub configuration_digest : String
  pub created_at : ℕ

pub record RepairRecord : Type 0 where
  pub operation_id : String
  pub reason_code : String
  pub created_at : ℕ

-- The columns that the configuration reads or writes. The owners are texts in the table.
pub record ManagedProcessRecord : Type 0 where
  pub artifact_id : String
  pub configuration_revision : ℕ
  pub pid : Option ℕ
  pub observed_state : String
  pub management_owner : String
  pub lifecycle_owner : String
  pub updated_at : ℕ

-- The tables, those of the operations among them.
pub record Tables : Type 0 where
  pub operations : Database
  pub plans : Dict PlanRecord
  pub revisions : List RevisionRecord
  pub backups : List BackupRecord
  pub repairs : List RepairRecord
  pub managed : Option ManagedProcessRecord

pub record ConfigurationCommit : Type 0 where
  pub configuration : ManagedConfiguration
  pub digest : String
  pub backup_relative_path : Option String
  pub backup_digest : Option String
  pub previous_bytes : Option Bytes

-- Equality of configurations is decided field by field.
decide_text : (a b : String) (same : Bool) → str_eq a b ≡ same → Dec (a ≡ b)
decide_text a b true e = yes ((eq_iff a b).0 e)
decide_text a b false e = no (λ p. cc ((eq_iff a b).1 p))

String-discrete : Discrete String
unfolding decide_text
String-discrete a b = decide_text a b (str_eq a b) refl

SecretReference-discrete : Discrete SecretReference
SecretReference-discrete = hlevel String-discrete

ManagedConfiguration-discrete : Discrete ManagedConfiguration
ManagedConfiguration-discrete = hlevel (String-discrete, SecretReference-discrete, ℕ_discrete)

abbrev holds {ℓ} : {A : Type ℓ} → Dec A → Bool
holds (yes _) = true
holds (no _) = false

holds-true {ℓ} : {A : Type ℓ} (d : Dec A) → holds d ≡ true → A
holds-true (yes a) h = a
holds-true (no _) h = absurd (cc)

-- `a == b` on two configurations.
unfoldable pub is_same : ManagedConfiguration → ManagedConfiguration → Bool
unfolding ManagedConfiguration-discrete SecretReference-discrete String-discrete decide_text
    ℕ_discrete
is_same a b = holds (ManagedConfiguration-discrete a b)

pub eq_of_is_same : (a b : ManagedConfiguration) → is_same a b ≡ true → a ≡ b
unfolding is_same
eq_of_is_same a b h = holds-true (ManagedConfiguration-discrete a b) h
