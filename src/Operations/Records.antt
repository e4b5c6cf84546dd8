-- ===== src/Operations/Records.antt =====
-- The rows of the control plane's database that the operations use
-- (control_plane/persistence/models.py, control_plane/domain/models.py). A JSON column holds the
-- value itself: `result_json` the text of the result, `error_json` the error.
use ai_agent_desktop.Base.{ℕ, String, Bool, true, false, Option, List}
use ai_agent_desktop.Base.Dict.{Dict}
use ai_agent_desktop.Errors.{UserFacingError}

pub data OperationStatus : Type 0 where
  queued running cancel_requested succeeded failed canceled : OperationStatus

abbrev pub status_value : OperationStatus → String
status_value queued = "queued"
status_value running = "running"
status_value cancel_requested = "cancel_requested"
status_value succeeded = "succeeded"
status_value failed = "failed"
status_value canceled = "canceled"

-- `status in {SUCCEEDED, FAILED, CANCELED}`
abbrev pub is_terminal : OperationStatus → Bool
is_terminal succeeded = true
is_terminal failed = true
is_terminal canceled = true
is_terminal _ = false

abbrev pub is_queued : OperationStatus → Bool
is_queued queued = true
is_queued _ = false

abbrev pub is_cancel_requested : OperationStatus → Bool
is_cancel_requested cancel_requested = true
is_cancel_requested _ = false

pub record OperationRecord : Type 0 where
  pub operation_id : String
  pub kind : String
  pub target_kind : String
  pub target_id : String
  pub status : OperationStatus
  pub progress_phase : String
  pub progress_message : String
  pub completed_units : ℕ
  pub total_units : Option ℕ
  pub point_of_no_return : Bool
  pub result_json : Option String
  pub error_json : Option UserFacingError
  pub idempotency_key : String
  pub created_at : ℕ
  pub updated_at : ℕ
  pub completed_at : Option ℕ

pub record IdempotencyRecord : Type 0 where
  pub method : String
  pub resource : String
  pub body_digest : String
  pub operation_id : String
  pub response_status : ℕ
  pub created_at : ℕ

-- The state of a job is one of the words of an operation's status.
pub record JobRecord : Type 0 where
  pub operation_id : String
  pub component_id : String
  pub kind : String
  pub payload_json : String
  pub state : OperationStatus
  pub attempts : ℕ
  pub created_at : ℕ
  pub updated_at : ℕ

pub record EventRecord : Type 0 where
  pub operation_id : String
  pub sequence : ℕ
  pub event_type : String
  pub phase : String
  pub created_at : ℕ

-- The tables by primary key, the events in the order of insertion, and how often the clock was read.
pub record Database : Type 0 where
  pub operations : Dict OperationRecord
  pub jobs : Dict JobRecord
  pub idempotency : Dict IdempotencyRecord
  pub events : List EventRecord
  pub ticks : ℕ
