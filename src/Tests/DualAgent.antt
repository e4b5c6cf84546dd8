-- ===== src/Tests/DualAgent.antt =====
-- The runs of src/dual-agent-fallback at concrete inputs.
use Prim.Native.String.{◌++◌}
use mathlib.Core.List.{Memᴰ}
use mathlib.Core.List
use ai_agent_desktop.Base.{
  ℕ, zero, suc, String, ◌≡◌, ◌≢◌, ◌↔◌, true, false, none, some, List, [], ◌∷◌,
}
use ai_agent_desktop.DualAgent.Delegator.{DelegateResult, success, Outcome, returned, raised}
use ai_agent_desktop.DualAgent.Guard.{TextHash, HopLimit, is_ping_pong}
use ai_agent_desktop.DualAgent.Aggregate.{AgentResults, no_results}
use ai_agent_desktop.DualAgent.Runner.{
  SequentialStep, BuildMessage, run_sequential, ParallelTarget, Future, Completion, result_of,
  collect,
}
use ai_agent_desktop.DualAgent.Sequence.{Call, logging, Dispatches, sequential_order}
use ai_agent_desktop.DualAgent.Gather.{collect_files, filed_under, last_result}
use ai_agent_desktop.DualAgent.Fuse.{ping_pong_iff}

abbrev plain_hash : TextHash
plain_hash = record { strip = λ a. a; lower = λ a. a; md5_hex12 = λ a. a }

abbrev three_hops : HopLimit
three_hops = record {
  max_hops = 3;
  max_repeat = 2;
  hop_count = 0;
  speaker_sequence = [];
  last_hash = none;
  consecutive_repeat = 0;
}

abbrev a_second : ℕ → ℕ
a_second turn = 1000

abbrev reply_of : String → String → ℕ → DelegateResult
reply_of agent text turn = record {
  status = success;
  agent = agent;
  reply = text;
  error = "";
  turn = turn;
  elapsed = 0;
}

-- The second call raises.
abbrev answers : String → String → ℕ → Outcome
answers agent message zero = returned (reply_of agent "done" 0)
answers agent message (suc turn) = raised "relay closed"

abbrev with_prior : BuildMessage
with_prior agent goal none = goal
with_prior agent goal (some prior) = goal ++ " after " ++ prior

abbrev three_steps : List SequentialStep
three_steps =
    record { agent = "claude"; goal = "write"; label = "" }
    ∷ record { agent = "codex"; goal = "review"; label = "" }
    ∷ record { agent = "claude"; goal = "fix"; label = "" }
    ∷ []

sequential_order_example :
    (calls : List Call) × ((run_sequential plain_hash a_second
        (logging answers)
        with_prior
        three_steps
        []
        three_hops).world
      ≡ List.◌++◌ [] calls)
    × Dispatches answers plain_hash with_prior three_hops none 0 three_steps calls
sequential_order_example =
    sequential_order answers plain_hash a_second with_prior three_steps [] three_hops

abbrev two_targets : List ParallelTarget
two_targets =
    record { agent = "claude"; message = "write"; label = "" }
    ∷ record { agent = "codex"; message = "review"; label = "" }
    ∷ []

abbrev claude_future : Future
claude_future = record {
  target = record { agent = "claude"; message = "write"; label = "" };
  outcome = returned (reply_of "claude" "done" 0);
}

abbrev codex_future : Future
codex_future = record {
  target = record { agent = "codex"; message = "review"; label = "" };
  outcome = raised "relay closed";
}

collect_files_example :
    filed_under success "claude"
      (collect plain_hash (codex_future ∷ claude_future ∷ []) three_hops no_results).1
    ≡ last_result success "claude" (codex_future ∷ claude_future ∷ [])
collect_files_example =
    collect_files plain_hash (codex_future ∷ claude_future ∷ []) three_hops success "claude"

abbrev all_finish : List Future → Completion
all_finish futures = record { finished = futures; timed_up = false }

ping_pong_iff_example :
    (is_ping_pong ("hermes" ∷ "claude" ∷ "codex" ∷ "claude" ∷ "codex" ∷ []) ≡ true) ↔ (
      (pre : List String) × (a b : String) × ("hermes" ∷ "claude" ∷ "codex" ∷ "claude" ∷ "codex"
          ∷ []
        ≡ List.◌++◌ pre (a ∷ b ∷ a ∷ b ∷ []))
      × (a ≢ b))
ping_pong_iff_example = ping_pong_iff ("hermes" ∷ "claude" ∷ "codex" ∷ "claude" ∷ "codex" ∷ [])

abbrev mixed_results : AgentResults
mixed_results = record no_results {
  successes = ("claude", reply_of "claude" "done" 0) ∷ [];
  failures = ("codex", result_of codex_future) ∷ [];
}
