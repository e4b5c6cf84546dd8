-- ===== src/Errors.antt =====
-- control-plane/control_plane/domain/models.py, the error shown to a user, and the exceptions that
-- carry one (`OperationExecutionError` of control_plane/operations/executor.py).
use ai_agent_desktop.Base.{String, Bool, Option, none, List}

pub record UserFacingError : Type 0 where
  pub code : String
  pub message : String
  pub retryable : Bool
  pub recovery_actions : List String
  pub diagnostic_id : Option String
  pub operation_id : Option String

-- An error with the defaults of the last two fields.
abbrev pub user_error : String → String → Bool → List String → UserFacingError
user_error code message retryable recovery_actions = record {
  code = code;
  message = message;
  retryable = retryable;
  recovery_actions = recovery_actions;
  diagnostic_id = none;
  operation_id = none;
}

pub data Result {ℓ} (A : Type ℓ) : Type ℓ where
  ok : A → Result A
  err : UserFacingError → Result A
