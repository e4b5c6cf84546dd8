-- ===== src/Tests/Queue.antt =====
-- The recovery and the queue of control_plane/operations/executor.py at concrete inputs.
use ai_agent_desktop.Base.{ℕ, refl, true, false, none, List, [], ◌∷◌, arith}
use ai_agent_desktop.Base.Dict.{Dict}
use ai_agent_desktop.Operations.Records.{
  OperationStatus, queued, running, OperationRecord, JobRecord, Database,
}
use ai_agent_desktop.Operations.Executor.{returned, Registration}
use ai_agent_desktop.Operations.Recovery.{default_recovery_probe, recover_persisted_jobs}
use ai_agent_desktop.Operations.Decision.{Recovered}
use ai_agent_desktop.Operations.Restart.{recover_persisted_jobs-Recovered}
use ai_agent_desktop.Operations.Queue.{Executor, queued_jobs, fill_queue}
use ai_agent_desktop.Operations.Workers.{
  IsQueue, Turn, filling, putting, taking, finishing, turns, turns-IsQueue, IsServed,
  fill_queue-IsServed,
}

abbrev microseconds : ℕ → ℕ
microseconds n = n

abbrev an_operation : OperationStatus → OperationRecord
an_operation status = record {
  operation_id = "op-1";
  kind = "component.start";
  target_kind = "component";
  target_id = "hermes";
  status = status;
  progress_phase = "queued";
  progress_message = "";
  completed_units = 0;
  total_units = none;
  point_of_no_return = false;
  result_json = none;
  error_json = none;
  idempotency_key = "key-1";
  created_at = 0;
  updated_at = 0;
  completed_at = none;
}

abbrev a_job : OperationStatus → JobRecord
a_job state = record {
  operation_id = "op-1";
  component_id = "hermes";
  kind = "component.start";
  payload_json = "{}";
  state = state;
  attempts = 1;
  created_at = 0;
  updated_at = 0;
}

-- One operation was running with its job, one has no job.
abbrev interrupted : Database
interrupted = record {
  operations = ("op-1", an_operation running) ∷ ("op-2", an_operation running) ∷ [];
  jobs = ("op-1", a_job running) ∷ [];
  idempotency = [];
  events = [];
  ticks = 0;
}

abbrev safe_start : Dict Registration
safe_start =
    (
      "component.start",
      record {
        handler = λ context db. (returned none, db);
        recovery_probe = default_recovery_probe;
      },
    )
    ∷ []

recover_persisted_jobs-Recovered_example :
    Recovered "op-1" (recover_persisted_jobs microseconds safe_start interrupted)
recover_persisted_jobs-Recovered_example =
    recover_persisted_jobs-Recovered microseconds safe_start interrupted "op-1"

abbrev waiting : Database
waiting = record interrupted { jobs = ("op-1", a_job queued) ∷ ("op-2", a_job queued) ∷ [] }

abbrev idle_executor : Executor
idle_executor = record {
  registrations = safe_start;
  queue = [];
  capacity = 1;
  enqueued = [];
  busy = [];
  started = true;
  accepting = true;
  shutdown = false;
}

abbrev some_turns : List Turn
some_turns =
    filling waiting ∷ taking ∷ putting "op-2" ∷ filling waiting ∷ finishing "op-1" waiting ∷ []

turns-IsQueue_example : IsQueue (turns some_turns idle_executor)
turns-IsQueue_example = turns-IsQueue some_turns idle_executor (omega arith, (λ a. omega arith))

fill_queue-IsServed_example : IsServed "op-1" (fill_queue waiting idle_executor)
unfolding queued_jobs
fill_queue-IsServed_example =
    fill_queue-IsServed waiting idle_executor "op-1" (omega arith, (λ a. omega arith)) refl refl
      refl
