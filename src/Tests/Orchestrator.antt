-- ===== src/Tests/Orchestrator.antt =====
-- The orchestrator of src/hermes-adapter/orchestrator.py at concrete inputs.
use ai_agent_desktop.Base.{
  ℕ, zero, suc, ◌+◌, ◌*◌, ◌≤◌, String, true, false, Option, none, some, [], ◌∷◌, ◌≡◌, refl, arith,
}
use ai_agent_desktop.Hermes.Relay.{
  new_guard, timed_out, exited, send, conclude, note_reply, count_hop, alternating, output_hash,
}
use ai_agent_desktop.Hermes.Orchestrator.{TaskRequest, Orchestrator, Host, delegate_once}
use ai_agent_desktop.Hermes.Modes.{run_discussion, run_execution, complete_task}
use ai_agent_desktop.Hermes.Bounded.{hops, run_discussion_ends}
use ai_agent_desktop.Hermes.Reworks.{reworks, run_execution_ends, failed_execution_done}

-- Every agent answers "no", which no review takes for an approval.
abbrev stubborn : Host
stubborn = record {
  hash = record { strip = λ a. a; lower = λ a. a; md5_hex12 = λ a. a };
  show = λ n. "n";
  first = λ n a. a;
  upper = λ a. a;
  has = λ part text. false;
  default_timeout = 600;
  run = λ n arguments timeout. exited 0 "no" "";
  goes_on = λ n. true;
  writable = true;
  summarise = λ outputs. "summary";
}

abbrev silent : Host
silent = record stubborn { run = λ n arguments timeout. timed_out }

abbrev request : TaskRequest
request = record {
  user_request = "build";
  mode = "EXECUTION";
  target_agents = "claude" ∷ "codex" ∷ [];
}

abbrev ready : Orchestrator
ready = record {
  relay = record {
    store = none;
    chat_id = "g1";
    task_id = "t1";
    cc_bin = "cc-connect";
    guard = new_guard;
    sessions = [];
  };
  turns = [];
  task = record {
    mode = "EXECUTION";
    status = "working";
    current_speaker = "";
    review_rework_count = 0;
  };
  notices = [];
  checks = 0;
}

run_discussion_ends_example :
    (o' : Orchestrator) × (run_discussion stubborn request 41 ready ≡ some o') × (hops o' ≤ 40)
run_discussion_ends_example = run_discussion_ends stubborn request ready (omega arith)

run_execution_ends_example :
    (o' : Orchestrator) × (run_execution stubborn request 3 ready ≡ some o')
    × (hops o' + 2 * 0 ≤ hops ready + 5)
    × (reworks o' ≤ 2)
run_execution_ends_example = run_execution_ends stubborn request ready refl (omega arith)

failed_execution_done_example :
    (o' : Orchestrator) × (run_execution silent request 3 ready ≡ some o')
    × ((complete_task silent request o').task.status ≡ "DONE")
unfolding delegate_once send conclude
failed_execution_done_example = failed_execution_done silent request ready refl refl refl refl refl

abbrev by_turns : ℕ → String
by_turns zero = "one"
by_turns (suc zero) = "two"
by_turns (suc (suc n)) = by_turns n

-- Two agents who always have something new and always disagree.
abbrev disputing : Host
disputing = record stubborn {
  has = λ part text. true;
  run = λ n arguments timeout. exited 0 (by_turns n) "";
}

abbrev calls_of : Option Orchestrator → ℕ
calls_of none = 0
calls_of (some o) = hops o

-- Two agents alternate, which every turn from the fifth on counts as a stall: the discussion is over
-- after eight calls, far from its limit of forty.
eight_calls : calls_of (run_discussion disputing request 41 ready) ≡ 8
unfolding run_discussion send conclude note_reply count_hop alternating output_hash
eight_calls = refl
