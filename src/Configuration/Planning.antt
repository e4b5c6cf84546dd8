-- ===== src/Configuration/Planning.antt =====
-- `create_plan` of control_plane/configuration/service.py.
use ai_agent_desktop.Base.{
  ℕ, ◌+◌, String, Bool, true, false, not, ◌||◌, Option, none, some, [], ◌∷◌, str_eq,
}
use ai_agent_desktop.Base.Dict.{insert}
use ai_agent_desktop.Lifecycle.Ports.{choose_available}
use ai_agent_desktop.Configuration.Records.{
  Bytes, ManagementOwner, LifecycleOwner, ManagedConfiguration, ConfigurationPlan, PlanStatus,
  PlanRecord, payload_of, RevisionRecord, ManagedProcessRecord,
}
use ai_agent_desktop.Configuration.Template.{
  Codec, render_managed_toml, build_minimal_configuration,
}
use ai_agent_desktop.Configuration.Disk.{
  Exception, Platform, Attempt, ok, Action, pure, raise, ◌>>=◌, ◌>>◌, raise_if, ask,
  configuration_failure,
}
use ai_agent_desktop.Configuration.Commit.{configuration_digest}
use ai_agent_desktop.Configuration.History.{session, find_revision}
use ai_agent_desktop.Configuration.Service.{
  Services, ask_service, owners, verified_current, port_is_free, context_digest, utcnow, Current,
}

pub record PlanRequest : Type 0 where
  pub listen_port : Option ℕ
  pub expires_in_seconds : ℕ
  pub rollback_to_revision : Option ℕ

abbrev pub external_conflict : Exception
external_conflict =
    configuration_failure "EXTERNAL_LIFECYCLE_CONFLICT"
      "An external cc-connect candidate is present; configuration ownership is unchanged." false
      ("stop_or_disambiguate_external_instance" ∷ "reprobe_ownership" ∷ [])

abbrev pub management_not_product : Exception
management_not_product =
    configuration_failure "MANAGEMENT_OWNER_NOT_PRODUCT"
      "Only the product owner may write the product-managed configuration." false
      ("create_ownership_handoff_plan" ∷ [])

abbrev pub lifecycle_not_product : Exception
lifecycle_not_product =
    configuration_failure "LIFECYCLE_OWNER_NOT_PRODUCT"
      "Confirm a separate lifecycle ownership handoff before configuration planning." false
      ("create_ownership_handoff_plan" ∷ [])

abbrev pub requires_stop : Exception
requires_stop =
    configuration_failure "CONFIGURATION_CHANGE_REQUIRES_STOP"
      "Stop the product-managed process before changing its configuration." false
      ("stop_product_managed_cc_connect" ∷ [])

abbrev pub revision_not_found : Exception
revision_not_found =
    configuration_failure "CONFIGURATION_REVISION_NOT_FOUND"
      "Requested rollback revision does not exist." false ("list_configuration_revisions" ∷ [])

abbrev pub port_conflict : Exception
port_conflict =
    configuration_failure "MANAGED_PORT_CONFLICT"
      "The planned loopback port is already occupied; no plan was created." true
      ("choose_another_managed_port" ∷ [])

unfoldable pub is_managed_by_product : ManagementOwner → Bool
is_managed_by_product ManagementOwner.product = true
is_managed_by_product _ = false

unfoldable pub is_run_by_product : LifecycleOwner → Bool
is_run_by_product LifecycleOwner.product = true
is_run_by_product _ = false

unfoldable pub is_running : Option ManagedProcessRecord → Bool
is_running none = false
is_running (some m) =
    str_eq m.observed_state "starting" || str_eq m.observed_state "running_partial"

-- A row, or the error that it is missing.
unfoldable pub revision_payload : Option RevisionRecord → Action (Option ManagedConfiguration)
revision_payload none = raise revision_not_found
revision_payload (some row) = pure (some row.payload)

-- `current_configuration.created_at if current_configuration else now`
abbrev pub created_since : Option ManagedConfiguration → ℕ → ℕ
created_since none now = now
created_since (some c) now = c.created_at

module _ (codec : Codec) (sha256 : Bytes → String)
    (validator : Bytes → Attempt ManagedConfiguration) (backup_path : String → ℕ → String)
    (p : Platform) (services : Services) (external : ℕ → Bool) (resolve : String → String)
    (product_instance_id : String) where
  -- `_load_revision`, if a revision is given.
  unfoldable pub rolled_back_to : Option ℕ → Action (Option ManagedConfiguration)
  unfolding revision_payload
  rolled_back_to none = pure none
  rolled_back_to (some revision) = do
    row ← session p λ t. (ok (find_revision revision t.revisions), t)
    revision_payload row

  unfoldable pub chosen_port :
      Option ℕ → Option ManagedConfiguration → Option ManagedConfiguration → Action ℕ
  unfolding choose_available
  chosen_port (some port) rollback current = pure port
  chosen_port none (some rollback) current = pure rollback.listen_port
  chosen_port none none (some current) = pure current.listen_port
  chosen_port none none none = ask_service λ n. choose_available (services.can_bind n)

  -- The checks that precede a plan, and the current revision.
  unfoldable pub admitted : Action (String × ManagementOwner × Current)
  unfolding is_managed_by_product is_run_by_product is_running
  admitted = do
    artifact ← ask_service services.current_artifact
    found ← owners codec sha256 validator backup_path p services
    conflict ← ask external
    raise_if conflict external_conflict
    raise_if (not (is_managed_by_product found.0)) management_not_product
    raise_if (not (is_run_by_product found.1)) lifecycle_not_product
    managed ← session p λ t. (ok t.managed, t)
    raise_if (is_running managed) requires_stop
    current ← verified_current codec sha256 validator backup_path p services
    pure (artifact, found.0, current)

  unfoldable pub target_of :
      String
      → ℕ
      → ℕ
      → ℕ
      → Option ManagedConfiguration
      → Option ManagedConfiguration
      → ManagedConfiguration
  target_of artifact port revision now current none =
      build_minimal_configuration resolve artifact product_instance_id port revision
        (created_since current now) now
  target_of artifact port revision now current (some rollback) = record rollback {
    artifact_id = artifact;
    product_instance_id = product_instance_id;
    listen_port = port;
    configuration_revision = revision;
    lifecycle_owner = LifecycleOwner.product;
    management_owner = ManagementOwner.product;
    updated_at = now;
  }

  -- The row with the digest of the plan and of its target.
  unfoldable pub sealed_row : ConfigurationPlan → ManagedConfiguration → PlanRecord
  sealed_row plan target =
      let sealed =
        services.hash_plan (payload_of plan)
          (configuration_digest sha256 (render_managed_toml codec target)) in
      record {
        plan = record plan { plan_digest = sealed };
        target = target;
        plan_digest = sealed;
        status = PlanStatus.waiting_for_confirmation;
        target_revision = plan.target_revision;
        confirmed_at = none;
        applied_at = none;
      }

  -- `create_plan`; `plan_id` is the fresh identifier.
  unfoldable pub create_plan : String → PlanRequest → Action ConfigurationPlan
  unfolding rolled_back_to chosen_port target_of
  create_plan plan_id q = do
    found ← admitted
    rollback ← rolled_back_to q.rollback_to_revision
    port ← chosen_port q.listen_port rollback found.2.2
    free ← port_is_free codec sha256 validator backup_path p services port
    raise_if (not free) port_conflict
    now ← utcnow codec sha256 validator backup_path p services
    context ← context_digest codec sha256 validator backup_path p services port found.2.0 found.2.1
    let target = target_of found.0 port (found.2.0 + 1) now found.2.2 rollback
    let row =
        sealed_row
          (record {
            plan_id = plan_id;
            plan_digest = "";
            context_digest = context;
            artifact_id = found.0;
            current_revision = found.2.0;
            target_revision = found.2.0 + 1;
            current_owner = found.1;
            port = port;
            secret_refs = target.secret_refs;
            rollback_to_revision = q.rollback_to_revision;
            created_at = now;
            expires_at = now + q.expires_in_seconds;
          })
          target
    session p λ t. (ok row.plan, record t { plans = insert plan_id row t.plans })
