-- ===== src/Tests/Operations.antt =====
-- The operations of the control plane at concrete inputs.
use ai_agent_desktop.Base.{
  ℕ, String, ◌≡◌, refl, true, false, none, some, [], ◌∷◌, arith, ◌&&◌, str_eq, if◌then◌else◌, subst,
  Option-cases, inl, inr,
}
use ai_agent_desktop.Base.Dict.{Dict, lookup}
use ai_agent_desktop.Operations.Records.{
  OperationStatus, queued, running, cancel_requested, OperationRecord, JobRecord, Database,
}
use ai_agent_desktop.Operations.Store.{
  Request, answered, key_reuse, new_operation, create, get, progress, transition,
}
use ai_agent_desktop.Operations.Executor.{
  returned, execution_error, ExecutionContext, Registration, fail, checkpoint_canceled,
  safe_checkpoint, execute,
}
use ai_agent_desktop.Operations.Lifecycle.{status_of}
use ai_agent_desktop.Operations.Canceled.{IsStopped, HasFailed, checkpoint_cancel_fails}
use ai_agent_desktop.Operations.Completion.{HasRows, KeepsRows, Ended, execute-Ended}
use ai_agent_desktop.Operations.Contract.{Conforms, AllConform, AllConform-transition, create_again}
use ai_agent_desktop.Operations.Invariant.{HandlersConform, execute-AllConform}

abbrev microseconds : ℕ → ℕ
microseconds n = n

abbrev same_text : String → String
same_text body = body

abbrev start_request : Request
start_request = record {
  kind = "component.start";
  target_kind = "component";
  target_id = "hermes";
  idempotency_key = "key-1";
  method = "POST";
  resource = "/components/hermes/start";
  body = "{}";
}

abbrev stop_request : Request
stop_request = record start_request { resource = "/components/hermes/stop" }

abbrev empty_database : Database
empty_database = record { operations = []; jobs = []; idempotency = []; events = []; ticks = 0 }

abbrev fresh_operation : OperationRecord
fresh_operation = new_operation microseconds same_text "op-1" start_request 0

create_again_example :
    let db' = (create microseconds same_text "op-1" start_request empty_database).0 in
    create microseconds same_text "op-2" stop_request db' ≡ (
      if str_eq (same_text start_request.body) (same_text stop_request.body)
        && str_eq start_request.method stop_request.method
        && str_eq start_request.resource stop_request.resource
      then (db', answered fresh_operation true)
      else (db', key_reuse stop_request.idempotency_key))
unfolding create lookup
create_again_example =
    create_again microseconds same_text "op-1" "op-2" start_request stop_request empty_database
      fresh_operation refl refl

abbrev start_job : JobRecord
start_job = record {
  operation_id = "op-1";
  component_id = "hermes";
  kind = "component.start";
  payload_json = "{}";
  state = queued;
  attempts = 0;
  created_at = 0;
  updated_at = 0;
}

abbrev one_operation : OperationStatus → Database
one_operation status = record empty_database {
  operations = ("op-1", record fresh_operation { status = status }) ∷ [];
  jobs = ("op-1", start_job) ∷ [];
}

-- A handler that writes nothing and returns.
abbrev quiet : Registration
quiet = record {
  handler = λ context db. (returned (some "{\"ok\": true}"), db);
  recovery_probe = λ id payload. record { action = fail; result = none; error = none };
}

abbrev quiet_only : Dict Registration
quiet_only = ("component.start", quiet) ∷ []

-- What is found under a key of a dictionary of one key is its value.
only_value {ℓ} : {V : Type ℓ} (key k : String) (v r : V) → lookup k ((key, v) ∷ []) ≡ some r → v ≡ r
unfolding lookup
only_value key k v r found = ground arith

quiet-KeepsRows :
    (r : Registration) → lookup "component.start" quiet_only ≡ some r → KeepsRows "op-1" r.handler
quiet-KeepsRows r found =
    subst (λ q. KeepsRows "op-1" q.handler)
      (only_value "component.start" "component.start" quiet r found) (λ context db rows. rows)

execute-Ended_example : Ended "op-1" (execute microseconds quiet_only "op-1" (one_operation queued))
unfolding lookup
execute-Ended_example =
    execute-Ended microseconds quiet_only "op-1" (one_operation queued)
      (record fresh_operation { status = queued }) start_job quiet-KeepsRows refl refl

-- A handler that reports its progress, and returns.
abbrev reporting : Registration
reporting = record quiet {
  handler = λ context db. (
    returned (some "{\"ok\": true}"),
    transition microseconds context.operation_id running (progress "working" "Half done.") db,
  );
}

abbrev reporting_only : Dict Registration
reporting_only = ("component.start", reporting) ∷ []

reporting-conforms :
    (context : ExecutionContext) (db : Database)
    → status_of context.operation_id db ≡ some running
    → AllConform db
    → AllConform (reporting.handler context db).1
reporting-conforms context db started all =
    elim (Option-cases (lookup context.operation_id db.operations)) [
      | inl missing ↦ absurd (ground (arith, started, missing))
      | inr (op, e) ↦
          AllConform-transition microseconds context.operation_id running
            (progress "working" "Half done.") db op e (ground (arith, started, e)) (refl, refl) all
    ]

reporting-HandlersConform : HandlersConform reporting_only
reporting-HandlersConform kind r context db found started all =
    subst (λ q. AllConform (q.handler context db).1)
      (only_value "component.start" kind reporting r found)
      (reporting-conforms context db started all)

one_operation-AllConform : AllConform (one_operation queued)
unfolding new_operation
one_operation-AllConform k r found =
    subst Conforms (only_value "op-1" k (record fresh_operation { status = queued }) r found)
      (refl, refl, refl)

execute-AllConform_example :
    AllConform (execute microseconds reporting_only "op-1" (one_operation queued))
execute-AllConform_example =
    execute-AllConform microseconds reporting_only "op-1" (one_operation queued)
      reporting-HandlersConform one_operation-AllConform

-- A handler that stops at the safe checkpoint, after a request to cancel that came meanwhile. It
-- leaves only its own operation and job.
abbrev stopping : Registration
stopping = record quiet {
  handler = λ context db. (execution_error checkpoint_canceled, one_operation cancel_requested);
}

abbrev stopping_only : Dict Registration
stopping_only = ("component.start", stopping) ∷ []

stopping-IsStopped :
    (context : ExecutionContext) (db : Database)
    → HasRows "op-1" db
    → IsStopped "op-1" false (stopping.handler context db)
unfolding lookup safe_checkpoint get
stopping-IsStopped context db rows = record {
  op = record fresh_operation { status = cancel_requested };
  job = start_job;
  error = checkpoint_canceled;
  has_op = refl;
  has_job = refl;
  requested = refl;
  checkpoint = refl;
  raises = refl;
}

checkpoint_cancel_fails_example :
    HasFailed "op-1" checkpoint_canceled
      (execute microseconds stopping_only "op-1" (one_operation queued))
unfolding lookup
checkpoint_cancel_fails_example =
    checkpoint_cancel_fails microseconds stopping_only "op-1" false (one_operation queued)
      (record fresh_operation { status = queued }) start_job stopping refl refl refl refl
      stopping-IsStopped
