-- ===== src/Configuration/Confirm.antt =====
-- `confirm_plan` of control_plane/configuration/service.py. Its session reads the rows, checks the
-- context in sessions of their own, and writes at the end.
use ai_agent_desktop.Base.{
  ℕ, String, Bool, true, false, not, ◌||◌, Option, none, some, [], ◌∷◌, ◌==◌, str_eq,
}
use ai_agent_desktop.Base.Dict.{lookup, insert}
use ai_agent_desktop.Operations.Store.{Request, Created, create}
use ai_agent_desktop.Configuration.Records.{
  Bytes, ManagedConfiguration, ConfigurationPlan, PlanStatus, PlanRecord, waiting_for_confirmation,
  confirmed, Tables,
}
use ai_agent_desktop.Configuration.Template.{Codec}
use ai_agent_desktop.Configuration.Disk.{
  Exception, Platform, Attempt, ok, Action, raise, ◌>>◌, raise_if, configuration_failure,
}
use ai_agent_desktop.Configuration.History.{pass_time, session}
use ai_agent_desktop.Configuration.Service.{Services, validate_plan_context}

pub record ConfirmationRequest : Type 0 where
  pub plan_id : String
  pub plan_digest : String
  pub current_revision : ℕ
  pub target_revision : ℕ
  pub confirmation : Bool

abbrev pub unknown_plan : Exception
unknown_plan =
    configuration_failure "CONFIGURATION_PLAN_NOT_FOUND" "Configuration plan was not found." false
      ("create_configuration_plan" ∷ [])

abbrev pub confirmation_mismatch : Exception
confirmation_mismatch =
    configuration_failure "CONFIGURATION_CONFIRMATION_MISMATCH"
      "Confirmation is not bound to the complete immutable configuration plan." false
      ("review_and_confirm_current_plan" ∷ [])

abbrev pub already_used : Exception
already_used =
    configuration_failure "CONFIGURATION_PLAN_ALREADY_USED"
      "Configuration plan was already confirmed." false ("create_configuration_plan" ∷ [])

-- `_validate_confirmation` refuses the request.
unfoldable pub is_mismatch : ConfigurationPlan → ConfirmationRequest → Bool
is_mismatch plan q =
    not (str_eq q.plan_id plan.plan_id)
    || not (str_eq q.plan_digest plan.plan_digest)
    || not (q.current_revision == plan.current_revision)
    || not (q.target_revision == plan.target_revision)
    || not q.confirmation

unfoldable pub awaits_confirmation : PlanStatus → Bool
awaits_confirmation waiting_for_confirmation = true
awaits_confirmation _ = false

unfoldable pub confirmed_plan : ℕ → PlanRecord → PlanRecord
confirmed_plan now row = record row { status = confirmed; confirmed_at = some now }

abbrev pub apply_request : String → String → Request
apply_request key body = record {
  kind = "cc_connect_configuration_apply";
  target_kind = "component";
  target_id = "cc-connect";
  idempotency_key = key;
  method = "POST";
  resource = "/api/v1/components/cc-connect/configuration:apply";
  body = body;
}

module _ (services : Services) (body_digest : String → String) where
  -- `store.create` in the tables; `op_id` is the fresh identifier.
  unfoldable pub created : String → String → String → Tables → Created × Tables
  created op_id key body t =
      let (db, answer) =
        create services.clock body_digest op_id (apply_request key body) t.operations in
      (answer, record t { operations = db })

module _ (codec : Codec) (sha256 : Bytes → String)
    (validator : Bytes → Attempt ManagedConfiguration) (backup_path : String → ℕ → String)
    (p : Platform) (services : Services) (body_digest : String → String) where
  -- The writes of a confirmation.
  unfoldable pub confirm_rows :
      String → String → String → String → PlanRecord → Tables → Attempt Created × Tables
  unfolding created confirmed_plan
  confirm_rows op_id key body plan_id row t =
      let (answer, t') = created services body_digest op_id key body t in
      (
        ok answer,
        pass_time (record t' {
          plans = insert plan_id (confirmed_plan (services.clock t'.operations.ticks) row) t'.plans;
        }),
      )

  unfoldable pub confirm_row :
      String → String → String → ConfirmationRequest → Option PlanRecord → Action Created
  confirm_row op_id key body q none = raise unknown_plan
  confirm_row op_id key body q (some row) = do
    raise_if (is_mismatch row.plan q) confirmation_mismatch
    raise_if (not (awaits_confirmation row.status)) already_used
    validate_plan_context codec sha256 validator backup_path p services row.plan
    session p (confirm_rows op_id key body q.plan_id row)

  -- A key that was used before is answered by `create`, and nothing else is looked at.
  unfoldable pub confirm_plan : String → String → String → ConfirmationRequest → Action Created
  confirm_plan op_id key body q w = elim (lookup key w.tables.operations.idempotency) [
    | some _ ↦
        session p
          (λ t. let (answer, t') = created services body_digest op_id key body t in (ok answer, t'))
          w
    | none ↦ confirm_row op_id key body q (lookup q.plan_id w.tables.plans) w
  ]
