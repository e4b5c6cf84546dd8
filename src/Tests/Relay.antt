-- ===== src/Tests/Relay.antt =====
-- The relay of src/hermes-adapter/relay_client.py at concrete inputs.
use ai_agent_desktop.Base.{ℕ, String, refl, true, some, List, [], ◌∷◌}
use ai_agent_desktop.DualAgent.Guard.{TextHash}
use ai_agent_desktop.Hermes.Relay.{new_guard, Ran, timed_out, exited, RelayClient, Delegation}
use ai_agent_desktop.Hermes.Signals.{Signals, agents_of, heard, send_all, send_all-Signals}

abbrev plain_hash : TextHash
plain_hash = record { strip = λ a. a; lower = λ a. a; md5_hex12 = λ a. a }

abbrev shown : ℕ → String
shown n = "n"

abbrev whole : String → String
whole a = a

abbrev fresh_client : RelayClient
fresh_client = record {
  store = some (record { relay_conversation_epoch = λ chat agent. some 2; writable = true });
  chat_id = "g1";
  task_id = "t1";
  cc_bin = "cc-connect";
  guard = new_guard;
  sessions = [];
}

abbrev to_claude : Delegation
to_claude = record {
  to_project = "claude-expert";
  agent_id = "claude";
  message = "write";
  turn = 0;
  timeout = 600;
}

abbrev three_calls : List (Delegation × Ran)
three_calls =
    (to_claude, exited 0 "done" "")
    ∷ (record to_claude { agent_id = "codex" }, timed_out)
    ∷ (to_claude, exited 0 "done" "")
    ∷ []

send_all-Signals_example :
    Signals
      (send_all plain_hash shown whole three_calls fresh_client).guard
      (agents_of three_calls)
      (heard plain_hash three_calls [])
send_all-Signals_example = send_all-Signals plain_hash shown whole three_calls fresh_client refl
