-- ===== src/Hermes/Relay.antt =====
-- `RelayClient` of src/hermes-adapter/relay_client.py with its guard. The command that it runs is a
-- parameter, as is the shared store, of which it reads an epoch and writes a record.
use Prim.Native.String.{◌++◌}
use mathlib.Core.List
use ai_agent_desktop.Base.{
  ℕ, ◌+◌, ◌-◌, String, Bool, true, false, not, ◌&&◌, Option, none, some, List, [], ◌∷◌, length,
  drop, leb, ltb, ◌==◌, str_eq, opt_str_eq, if◌then◌else◌,
}
use ai_agent_desktop.DualAgent.Guard.{TextHash}

pub record HopGuard : Type 0 where
  pub hop_count : ℕ
  pub speaker_sequence : List String
  pub ping_pong_detected : Bool
  pub last_output_hash : Option String
  pub consecutive_repeat : ℕ

abbrev pub new_guard : HopGuard
new_guard = record {
  hop_count = 0;
  speaker_sequence = [];
  ping_pong_detected = false;
  last_output_hash = none;
  consecutive_repeat = 0;
}

unfoldable pub would_exceed_max_hops : ℕ → HopGuard → Bool
would_exceed_max_hops max_hops g = leb max_hops g.hop_count

-- `_hash_text`
unfoldable pub output_hash : TextHash → String → String
output_hash t text = t.md5_hex12 (t.lower (t.strip text))

tail_alternates : List String → Bool
tail_alternates (a ∷ b ∷ c ∷ d ∷ []) = str_eq a c && str_eq b d && not (str_eq a b)
tail_alternates _ = false

-- `_is_ping_pong`
unfoldable pub alternating : List String → Bool
unfolding tail_alternates
alternating seq = if ltb (length seq) 4 then false else tail_alternates (drop (length seq - 4) seq)

-- What `send` does to the guard before the call.
unfoldable pub count_hop : String → HopGuard → HopGuard
count_hop agent_id g =
    let seq = List.◌++◌ g.speaker_sequence (agent_id ∷ []) in
    record g {
      hop_count = g.hop_count + 1;
      speaker_sequence = seq;
      ping_pong_detected = alternating seq;
    }

-- What it does after a reply.
unfoldable pub note_reply : TextHash → String → HopGuard → HopGuard
note_reply t reply g =
    let h = output_hash t reply in
    if opt_str_eq (some h) g.last_output_hash
    then record g { consecutive_repeat = g.consecutive_repeat + 1 }
    else record g { consecutive_repeat = 0; last_output_hash = some h }

-- What `subprocess.run` comes to; on Windows an exit code is not negative.
pub data Ran : Type 0 where
  timed_out not_found : Ran
  failed : String → Ran
  exited : ℕ → String → String → Ran

-- The shared store: the epoch of a conversation, `none` if reading it raises, and whether writing a
-- record succeeds.
pub record Store : Type 0 where
  pub relay_conversation_epoch : String → String → Option ℕ
  pub writable : Bool

-- A row of `record_task_agent_session`.
pub record TaskSession : Type 0 where
  pub task_id : String
  pub agent_id : String
  pub session_key : String
  pub turn : ℕ

pub record RelayClient : Type 0 where
  pub store : Option Store
  pub chat_id : String
  pub task_id : String
  pub cc_bin : String
  pub guard : HopGuard
  pub sessions : List TaskSession

-- A call of `send`.
pub record Delegation : Type 0 where
  pub to_project : String
  pub agent_id : String
  pub message : String
  pub turn : ℕ
  pub timeout : ℕ

epoch_or_zero : Option ℕ → ℕ
epoch_or_zero none = 0
epoch_or_zero (some epoch) = epoch

-- The epoch that `_from_project` uses.
unfoldable pub epoch_of : RelayClient → String → ℕ
unfolding epoch_or_zero
epoch_of c agent_id = elim c.store [
  | none ↦ 0
  | some store ↦ epoch_or_zero (store.relay_conversation_epoch c.chat_id agent_id)
]

can_record : Option Store → Bool
can_record none = false
can_record (some store) = store.writable

-- `show` is Python's decimal text of a number, `first_500` is `err[:500]`.
module _ (t : TextHash) (show : ℕ → String) (first_500 : String → String) where
  unfoldable pub from_project : RelayClient → String → String
  from_project c agent_id =
      "hermes-conv_" ++ c.chat_id ++ "_" ++ agent_id ++ "_" ++ show (epoch_of c agent_id)

  unfoldable pub relay_session_key : RelayClient → String → String
  relay_session_key c agent_id = "relay:" ++ from_project c agent_id ++ ":telegram:" ++ c.chat_id

  unfoldable pub command : RelayClient → Delegation → List String
  command c d =
      c.cc_bin
      ∷ "relay"
      ∷ "send"
      ∷ "--from"
      ∷ from_project c d.agent_id
      ∷ "--to"
      ∷ d.to_project
      ∷ "--session-key"
      ∷ ("telegram:" ++ c.chat_id ++ ":0")
      ∷ "--message"
      ∷ d.message
      ∷ []

  exit_error : ℕ → String → String → String
  exit_error code stdout stderr =
      "relay exit "
      ++ show code
      ++ ": "
      ++ first_500 (t.strip (if str_eq stderr "" then stdout else stderr))

  note_session : Delegation → RelayClient → List TaskSession
  unfolding can_record
  note_session d c =
      let row : TaskSession = record {
        task_id = c.task_id;
        agent_id = d.agent_id;
        session_key = relay_session_key c d.agent_id;
        turn = d.turn;
      } in
      if can_record c.store then List.◌++◌ c.sessions (row ∷ []) else c.sessions

  -- `send` after the command has run, with its answer `(ok, text)`.
  unfoldable pub conclude : Delegation → Ran → RelayClient → RelayClient × Bool × String
  unfolding exit_error note_session
  conclude d timed_out c =
      (c, false, "relay timeout after " ++ show d.timeout ++ "s (agent process not killed)")
  conclude d not_found c = (c, false, "cc-connect binary not found: " ++ c.cc_bin)
  conclude d (failed text) c = (c, false, "relay invocation failed: " ++ text)
  conclude d (exited code stdout stderr) c =
      let reply = t.strip stdout in
      if code == 0
      then (
        record c { sessions = note_session d c; guard = note_reply t reply c.guard },
        true,
        reply,
      )
      else (c, false, exit_error code stdout stderr)

  -- `run` stands for `subprocess.run` with the arguments and the timeout.
  unfoldable pub send :
      (List String → ℕ → Ran) → Delegation → RelayClient → RelayClient × Bool × String
  send run d c =
      let c' = record c { guard = count_hop d.agent_id c.guard } in
      conclude d (run (command c' d) d.timeout) c'
