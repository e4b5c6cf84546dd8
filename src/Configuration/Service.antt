-- ===== src/Configuration/Service.antt =====
-- `CcConnectConfigurationService` of control_plane/configuration/service.py: what its methods check.
-- `Services` is what the version store and the sockets answer to the n-th call, and the digests.
use ai_agent_desktop.Base.{
  ℕ, suc, String, Bool, true, false, not, ◌||◌, Option, none, some, ◌==◌, leb, str_eq,
  if◌then◌else◌,
}
use ai_agent_desktop.Base.Dict.{lookup}
use ai_agent_desktop.Errors
use ai_agent_desktop.Errors.{UserFacingError}
use ai_agent_desktop.Lifecycle.Ports.{is_available}
use ai_agent_desktop.Operations.Executor.{cancellation_requested}
use ai_agent_desktop.Configuration.Records.{
  Bytes, ManagementOwner, LifecycleOwner, ManagedConfiguration, ConfigurationPlan, PlanStatus,
  PlanRecord, payload_of, PlanPayload, confirmed, RevisionRecord, Tables,
}
use ai_agent_desktop.Configuration.Template.{Codec, render_managed_toml}
use ai_agent_desktop.Configuration.Disk.{
  installer_error, assertion_error, Platform, Attempt, ok, raised, Action, pure, raise, ◌>>=◌, ◌>>◌,
  raise_if,
}
use ai_agent_desktop.Configuration.Refusals.{
  history_disagrees, manual_drift, record_mismatch, plan_expired, revision_conflict,
  context_changed, plan_not_found, plan_not_confirmed, plan_tampered, operation_canceled,
}
use ai_agent_desktop.Configuration.Store.{read_bytes}
use ai_agent_desktop.Configuration.Commit.{configuration_digest, read}
use ai_agent_desktop.Configuration.History.{pass_time, session, latest_revision}

-- What `_context_digest` hashes.
pub record Context : Type 0 where
  pub artifact_context : String
  pub current_revision : ℕ
  pub current_digest : Option String
  pub management_owner : ManagementOwner
  pub lifecycle_owner : LifecycleOwner
  pub target_port : ℕ
  pub target_port_free : Bool

pub record Services : Type 0 where
  pub clock : ℕ → ℕ
  -- The artifact that is current, or what `ManagedVersionStore.current` raises.
  pub current_artifact : ℕ → Errors.Result String
  pub artifact_context : ℕ → Errors.Result String
  pub can_bind : ℕ → String → ℕ → Bool
  pub hash_context : Context → String
  -- `canonical_digest` of the payload of a plan and the digest of its target.
  pub hash_plan : PlanPayload → String → String

-- An answer of another service that may be an `InstallerError`.
abbrev pub ask_service : {A : Type 0} → (ℕ → Errors.Result A) → Action A
ask_service answer w = elim (answer w.calls) [
  | Errors.ok a ↦ (ok a, record w { calls = suc w.calls })
  | Errors.err e ↦ (raised (installer_error e), record w { calls = suc w.calls })
]

unfoldable pub management_of : String → Option ManagementOwner
management_of text =
    if str_eq text "external"
    then some ManagementOwner.external
    else if str_eq text "product"
    then some ManagementOwner.product
    else if str_eq text "unmanaged"
    then some ManagementOwner.unmanaged
    else if str_eq text "conflict"
    then some ManagementOwner.conflict
    else if str_eq text "unknown"
    then some ManagementOwner.unknown
    else none

unfoldable pub lifecycle_of : String → Option LifecycleOwner
lifecycle_of text =
    if str_eq text "external"
    then some LifecycleOwner.external
    else if str_eq text "product"
    then some LifecycleOwner.product
    else if str_eq text "none"
    then some LifecycleOwner.none
    else if str_eq text "conflict"
    then some LifecycleOwner.conflict
    else if str_eq text "unknown"
    then some LifecycleOwner.unknown
    else none

-- Both, unless one of the texts is no owner.
unfoldable pub owners_of :
    Option ManagementOwner → Option LifecycleOwner → ManagementOwner × LifecycleOwner
owners_of (some m) (some l) = (m, l)
owners_of _ _ = (ManagementOwner.unknown, LifecycleOwner.unknown)

-- A row of a revision and the file that it describes.
abbrev pub Current : Type 0
Current = ℕ × Option String × Option ManagedConfiguration

unfoldable pub checked_record :
    RevisionRecord → String → Option ManagedConfiguration → Action Current
checked_record row digest none = raise assertion_error
checked_record row digest (some configuration) =
    if not (configuration.configuration_revision == row.revision)
      || not (str_eq configuration.artifact_id row.artifact_id)
      || not (str_eq configuration.product_instance_id row.product_instance_id)
    then raise record_mismatch
    else pure (row.revision, some digest, some configuration)

unfoldable pub is_confirmed : PlanStatus → Bool
is_confirmed confirmed = true
is_confirmed _ = false

module _ (codec : Codec) (sha256 : Bytes → String)
    (validator : Bytes → Attempt ManagedConfiguration) (backup_path : String → ℕ → String)
    (p : Platform) (services : Services) where
  unfoldable pub owners : Action (ManagementOwner × LifecycleOwner)
  unfolding owners_of management_of lifecycle_of
  owners = do
    row ← session p λ t. (ok t.managed, t)
    λ w. elim row [
      | some m ↦
          (ok (owners_of (management_of m.management_owner) (lifecycle_of m.lifecycle_owner)), w)
      | none ↦ elim (services.current_artifact w.calls) [
        | Errors.err e ↦
            (ok (ManagementOwner.unmanaged, LifecycleOwner.none), record w { calls = suc w.calls })
        | Errors.ok id ↦
            (ok (ManagementOwner.product, LifecycleOwner.none), record w { calls = suc w.calls })
      ]
    ]

  unfoldable pub current_of : Option RevisionRecord → Option Bytes → Action Current
  unfolding checked_record
  current_of none none = pure (0, none, none)
  current_of none (some raw) = raise history_disagrees
  current_of (some row) none = raise history_disagrees
  current_of (some row) (some raw) = do
    raise_if (not (str_eq (configuration_digest sha256 raw) row.configuration_digest)) manual_drift
    configuration ← read codec sha256 validator backup_path p
    checked_record row (configuration_digest sha256 raw) configuration

  -- `_verified_current`
  unfoldable pub verified_current : Action Current
  verified_current = do
    row ← session p λ t. (ok (latest_revision t.revisions), t)
    raw ← read_bytes p
    current_of row raw

  unfoldable pub port_is_free : ℕ → Action Bool
  unfolding is_available
  port_is_free port = ask_service λ n. is_available (services.can_bind n) "127.0.0.1" port

  -- `_context_digest`
  unfoldable pub context_digest : ℕ → ℕ → Option String → Action String
  unfolding owners port_is_free
  context_digest port revision digest = do
    found ← owners
    artifact_context ← ask_service services.artifact_context
    free ← port_is_free port
    pure (
        services.hash_context (record {
          artifact_context = artifact_context;
          current_revision = revision;
          current_digest = digest;
          management_owner = found.0;
          lifecycle_owner = found.1;
          target_port = port;
          target_port_free = free;
        }))

  unfoldable pub utcnow : Action ℕ
  utcnow w =
      (ok (services.clock w.tables.operations.ticks), record w { tables = pass_time w.tables })

  -- `_validate_plan_context`
  unfoldable pub validate_plan_context : ConfigurationPlan → Action (Unit {0})
  unfolding utcnow
  validate_plan_context plan = do
    now ← utcnow
    raise_if (leb plan.expires_at now) plan_expired
    current ← verified_current
    raise_if (not (current.0 == plan.current_revision)) revision_conflict
    found ← context_digest plan.port current.0 current.1
    raise_if (not (str_eq found plan.context_digest)) context_changed

  unfoldable pub confirmed_row : Option PlanRecord → Tables → Attempt PlanRecord × Tables
  unfolding is_confirmed
  confirmed_row none t = (raised plan_not_found, t)
  confirmed_row (some row) t =
      (if is_confirmed row.status then ok row else raised plan_not_confirmed, t)

  unfoldable pub loaded_row : String → Action PlanRecord
  unfolding confirmed_row
  loaded_row plan_id = session p λ t. confirmed_row (lookup plan_id t.plans) t

  -- The digest of the plan and of its target are those of the row.
  unfoldable pub check_digests : PlanRecord → Action PlanRecord
  check_digests row = do
    let expected =
        services.hash_plan (payload_of row.plan)
          (configuration_digest sha256 (render_managed_toml codec row.target))
    raise_if (not (str_eq expected row.plan_digest) || not (str_eq expected row.plan.plan_digest))
        plan_tampered
    pure row

  -- `_load_execution_plan`
  unfoldable pub load_execution_plan : String → Action PlanRecord
  load_execution_plan plan_id = do row ← loaded_row plan_id; check_digests row

  -- `_check_cancellation`
  unfoldable pub check_cancellation : String → Action (Unit {0})
  unfolding cancellation_requested
  check_cancellation operation_id = do
    canceled ← session p λ t. (ok (cancellation_requested operation_id t.operations), t)
    raise_if canceled operation_canceled
