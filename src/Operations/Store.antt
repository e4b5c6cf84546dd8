-- ===== src/Operations/Store.antt =====
-- `OperationStore` of control_plane/application/operation_store.py. `clock n` is what the n-th call
-- of `utcnow` shows, and `digest` is the SHA-256 hex digest that `body_digest` takes from hashlib.
use ai_agent_desktop.Base.{
  ℕ, ◌+◌, String, Bool, true, false, not, ◌||◌, Option, none, some, List, [], ◌∷◌, str_eq,
  if◌then◌else◌,
}
use ai_agent_desktop.Base.Dict.{Dict, lookup, insert}
use ai_agent_desktop.Errors.{UserFacingError, user_error}
use ai_agent_desktop.Operations.Records.{
  OperationStatus, queued, succeeded, failed, canceled, is_terminal, OperationRecord,
  IdempotencyRecord, Database,
}

-- `get`, `_load`
unfoldable pub get : String → Database → Option OperationRecord
get operation_id db = lookup operation_id db.operations

pub record Request : Type 0 where
  pub kind : String
  pub target_kind : String
  pub target_id : String
  pub idempotency_key : String
  pub method : String
  pub resource : String
  pub body : String

-- An operation with whether it answers an earlier request, or `IdempotencyKeyReuse`.
pub data Created : Type 0 where
  answered : OperationRecord → Bool → Created
  key_reuse : String → Created

reuse : String → Option OperationRecord → Created
reuse key none = key_reuse key
reuse key (some op) = answered op true

module _ (clock : ℕ → ℕ) (digest : String → String) where
  unfoldable pub new_operation : String → Request → ℕ → OperationRecord
  new_operation op_id q now = record {
    operation_id = op_id;
    kind = q.kind;
    target_kind = q.target_kind;
    target_id = q.target_id;
    status = queued;
    progress_phase = "queued";
    progress_message = "";
    completed_units = 0;
    total_units = none;
    point_of_no_return = false;
    result_json = none;
    error_json = none;
    idempotency_key = q.idempotency_key;
    created_at = now;
    updated_at = now;
    completed_at = none;
  }

  pub new_key : String → Request → ℕ → IdempotencyRecord
  new_key op_id q now = record {
    method = q.method;
    resource = q.resource;
    body_digest = digest q.body;
    operation_id = op_id;
    response_status = 202;
    created_at = now;
  }

  -- The key was used for another request.
  abbrev pub differs : IdempotencyRecord → Request → Bool
  differs existing q =
      not (str_eq existing.body_digest (digest q.body))
      || not (str_eq existing.method q.method)
      || not (str_eq existing.resource q.resource)

  create_for : String → Request → Option IdempotencyRecord → Database → Database × Created
  unfolding get reuse new_operation new_key
  create_for op_id q (some existing) db =
      if differs existing q
      then (db, key_reuse q.idempotency_key)
      else (db, reuse q.idempotency_key (get existing.operation_id db))
  create_for op_id q none db =
      let op = new_operation op_id q (clock db.ticks) in
      let db' = record db {
        operations = insert op_id op db.operations;
        idempotency = insert q.idempotency_key (new_key op_id q (clock db.ticks)) db.idempotency;
        ticks = db.ticks + 1;
      } in
      (db', answered op false)

  -- `create`; `op_id` is the fresh identifier that `new_id` draws from `uuid4`.
  unfoldable pub create : String → Request → Database → Database × Created
  unfolding create_for
  create op_id q db = create_for op_id q (lookup q.idempotency_key db.idempotency) db

-- The keyword arguments of `transition` but for the status.
pub record Changes : Type 0 where
  pub phase : Option String
  pub message : Option String
  pub completed_units : Option ℕ
  pub total_units : Option ℕ
  pub point_of_no_return : Option Bool
  pub result : Option String
  pub error : Option UserFacingError

-- A new phase and message, and nothing else.
abbrev pub progress : String → String → Changes
progress phase message = record {
  phase = some phase;
  message = some message;
  completed_units = none;
  total_units = none;
  point_of_no_return = none;
  result = none;
  error = none;
}

abbrev pub or_keep {ℓ} : {A : Type ℓ} → Option A → A → A
or_keep none a = a
or_keep (some b) a = b

abbrev pub or_keep? {ℓ} : {A : Type ℓ} → Option A → Option A → Option A
or_keep? none a = a
or_keep? (some b) a = some b

-- The last lines of `transition`: what a terminal status clears.
settle : OperationStatus → ℕ → OperationRecord → OperationRecord
settle succeeded now r = record r { completed_at = some now; error_json = none }
settle failed now r = record r { completed_at = some now; result_json = none }
settle canceled now r = record r { completed_at = some now; result_json = none }
settle _ now r = r

unfoldable pub changed : OperationStatus → Changes → ℕ → OperationRecord → OperationRecord
unfolding settle
changed status c now r = settle status now (record r {
  status = status;
  updated_at = now;
  progress_phase = or_keep c.phase r.progress_phase;
  progress_message = or_keep c.message r.progress_message;
  completed_units = or_keep c.completed_units r.completed_units;
  total_units = or_keep? c.total_units r.total_units;
  point_of_no_return = or_keep c.point_of_no_return r.point_of_no_return;
  result_json = or_keep? c.result r.result_json;
  error_json = or_keep? c.error r.error_json;
})

module _ (clock : ℕ → ℕ) where
  transition_row : String → OperationStatus → Changes → Option OperationRecord → Database → Database
  unfolding changed
  transition_row operation_id status c none db = db
  transition_row operation_id status c (some r) db = record db {
    operations = insert operation_id (changed status c (clock db.ticks) r) db.operations;
    ticks = db.ticks + 1;
  }

  unfoldable pub transition : String → OperationStatus → Changes → Database → Database
  unfolding transition_row
  transition operation_id status c db =
      transition_row operation_id status c (lookup operation_id db.operations) db

  recovery_unknown : UserFacingError
  recovery_unknown =
      user_error "OPERATION_RECOVERY_UNKNOWN"
        "Control Plane restarted before the operation completed; side effect state is unknown." true
        ("reprobe" ∷ "retry_after_review" ∷ [])

  -- The loop of `recover_on_startup` over the rows of the table, at the time `now`.
  unfoldable pub recover_rows : ℕ → Dict OperationRecord → Dict OperationRecord × List String
  unfolding recovery_unknown
  recover_rows now [] = ([], [])
  recover_rows now ((id, r) ∷ rest) =
      let (rows, ids) = recover_rows now rest in
      let r' = record r {
        status = failed;
        updated_at = now;
        completed_at = some now;
        error_json = some recovery_unknown;
      } in
      if is_terminal r.status
      then ((id, r) ∷ rows, ids)
      else ((id, r') ∷ rows, r.operation_id ∷ ids)

  unfoldable pub recover_on_startup : Database → Database × List String
  unfolding recover_rows
  recover_on_startup db =
      let (rows, ids) = recover_rows (clock db.ticks) db.operations in
      (record db { operations = rows; ticks = db.ticks + 1 }, ids)
