-- ===== src/Configuration/Refusals.antt =====
-- The errors that control_plane/configuration/service.py raises.
use ai_agent_desktop.Base.{true, false, [], ◌∷◌}
use ai_agent_desktop.Configuration.Disk.{Exception, configuration_failure}

abbrev pub history_disagrees : Exception
history_disagrees =
    configuration_failure "CONFIGURATION_MANUAL_DRIFT"
      "Configuration file and persistent revision history disagree." false
      ("create_configuration_rollback_plan" ∷ "inspect_product_state" ∷ [])

abbrev pub manual_drift : Exception
manual_drift =
    configuration_failure "CONFIGURATION_MANUAL_DRIFT"
      "Product-managed configuration was modified outside the confirmed plan." false
      ("create_configuration_rollback_plan" ∷ "review_manual_change" ∷ [])

abbrev pub record_mismatch : Exception
record_mismatch =
    configuration_failure "CONFIGURATION_REVISION_RECORD_MISMATCH"
      "Configuration identity does not match its persistent revision record." false
      ("create_configuration_rollback_plan" ∷ [])

abbrev pub plan_expired : Exception
plan_expired =
    configuration_failure "CONFIGURATION_PLAN_EXPIRED"
      "Configuration plan expired before confirmation or execution." false
      ("create_configuration_plan" ∷ [])

abbrev pub revision_conflict : Exception
revision_conflict =
    configuration_failure "CONFIGURATION_REVISION_CONFLICT"
      "Configuration revision changed after planning." true ("create_configuration_plan" ∷ [])

abbrev pub context_changed : Exception
context_changed =
    configuration_failure "CONFIGURATION_PLAN_CONTEXT_CHANGED"
      "Artifact, owner, configuration, or port state changed after planning." true
      ("create_configuration_plan" ∷ [])

abbrev pub plan_not_found : Exception
plan_not_found =
    configuration_failure "CONFIGURATION_PLAN_NOT_FOUND"
      "Configuration plan was not found during execution." false ("create_configuration_plan" ∷ [])

abbrev pub plan_not_confirmed : Exception
plan_not_confirmed =
    configuration_failure "CONFIGURATION_PLAN_NOT_CONFIRMED"
      "Configuration plan is not in the confirmed state." false ("confirm_configuration_plan" ∷ [])

abbrev pub plan_tampered : Exception
plan_tampered =
    configuration_failure "CONFIGURATION_PLAN_TAMPERED"
      "Persisted configuration plan or target payload was modified." false
      ("create_configuration_plan" ∷ "inspect_database_integrity" ∷ [])

abbrev pub operation_canceled : Exception
operation_canceled =
    configuration_failure "OPERATION_CANCELED"
      "Configuration apply was canceled before its atomic replacement point." false
      ("create_configuration_plan_if_needed" ∷ [])
