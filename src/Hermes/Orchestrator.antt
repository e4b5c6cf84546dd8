-- ===== src/Hermes/Orchestrator.antt =====
-- `Orchestrator` of src/hermes-adapter/orchestrator.py: one delegation, the execution loop with its
-- reviews and the discussion loop, on `RelayClient`. The loops of the source have no bound of their
-- own, so they run on fuel here; `none` is fuel that ran out.
use Prim.Native.String.{◌++◌}
use mathlib.Core.List
use ai_agent_desktop.Base.{
  ℕ, ◌+◌, ◌-◌, min, String, Bool, true, false, not, ◌&&◌, ◌||◌, Option, none, some, List, [], ◌∷◌,
  length, drop, leb, ltb, ◌==◌, str_eq, if◌then◌else◌,
}
use ai_agent_desktop.Base.Dict.{Dict, insert}
use ai_agent_desktop.DualAgent.Guard.{TextHash}
use ai_agent_desktop.Hermes.Relay.{HopGuard, would_exceed_max_hops, Ran, RelayClient, send}

pub record TurnRecord : Type 0 where
  pub speaker : String
  pub output : String
  pub turn : ℕ

-- The columns of the task that the orchestrator writes.
pub record TaskRow : Type 0 where
  pub mode : String
  pub status : String
  pub current_speaker : String
  pub review_rework_count : ℕ

pub record TaskRequest : Type 0 where
  pub user_request : String
  pub mode : String
  pub target_agents : List String

-- What `_notify` tells the chat, without the wording.
pub data Notice : Type 0 where
  unknown_agent : String → Notice
  call_failed : String → String → Notice
  rework_cap : ℕ → Notice
  review_passed : Notice
  rework_round : ℕ → Notice
  hops_exceeded ping_pong repeated stalled converged : Notice
  summary : String → Notice
  task_done unsupported_mode : Notice

-- The orchestrator with the relay, the row of its task and what it told the chat. `checks` counts
-- the looks at the events that stop and pause the task.
pub record Orchestrator : Type 0 where
  pub relay : RelayClient
  pub turns : List TurnRecord
  pub task : TaskRow
  pub notices : List Notice
  pub checks : ℕ

-- What lies outside: the command of the relay by the number of the call, whether the task may go on
-- at the n-th look, whether the store takes writes, and the texts of str and of the host's model.
pub record Host : Type 0 where
  pub hash : TextHash
  pub show : ℕ → String
  -- `text[:n]`
  pub first : ℕ → String → String
  pub upper : String → String
  -- `part in text`
  pub has : String → String → Bool
  pub default_timeout : ℕ
  pub run : ℕ → List String → ℕ → Ran
  pub goes_on : ℕ → Bool
  pub writable : Bool
  pub summarise : Dict String → String

abbrev pub max_hops_discussion : ℕ
max_hops_discussion = 40

abbrev pub max_stalls : ℕ
max_stalls = 5

abbrev pub max_review_rework : ℕ
max_review_rework = 2

abbrev pub repeat_fuse : ℕ
repeat_fuse = 3

-- `AGENT_PROJECTS.get(agent)`
unfoldable pub project_of : String → Option String
project_of agent =
    if str_eq agent "claude"
    then some "claude-expert"
    else if str_eq agent "codex"
    then some "codex-expert"
    else none

abbrev pub last_turn : List TurnRecord → Option TurnRecord
last_turn [] = none
last_turn (t ∷ []) = some t
last_turn (t ∷ u ∷ rest) = last_turn (u ∷ rest)

unfoldable pub notify : Notice → Orchestrator → Orchestrator
notify notice o = record o { notices = List.◌++◌ o.notices (notice ∷ []) }

-- The loop of `_select_speaker` over the agents.
unfoldable pub other_than : Option TurnRecord → List String → Option String
other_than last [] = none
other_than none (a ∷ rest) = some a
other_than (some t) (a ∷ rest) = if str_eq a t.speaker then other_than (some t) rest else some a

abbrev pub or_first : String → Option String → String
or_first a none = a
or_first a (some b) = b

module _ (h : Host) where
  -- `update_task`, which only logs a write that fails.
  unfoldable pub update_task : (TaskRow → TaskRow) → Orchestrator → Orchestrator
  update_task change o = if h.writable then record o { task = change o.task } else o

  -- `_check_control`
  unfoldable pub check_control : Orchestrator → Bool × Orchestrator
  check_control o = (h.goes_on o.checks, record o { checks = o.checks + 1 })

  last_words : Option TurnRecord → String
  last_words none = ""
  last_words (some t) = "\n\n【上一位发言者 " ++ t.speaker ++ " 的原始正式输出】\n" ++ h.first 3000 t.output

  unfoldable pub build_discussion_context : String → String → List TurnRecord → String
  unfolding last_words
  build_discussion_context goal issue turns =
      "【任务目标】"
      ++ goal
      ++ (if str_eq issue "" then "" else "\n\n【当前议题】" ++ issue)
      ++ last_words (last_turn turns)
      ++ "\n\n请基于以上给出你的正式结论，直接输出结论内容，不要复述他人内容。"

  unfoldable pub answered :
      String → ℕ → RelayClient × Bool × String → Orchestrator → Option String × Orchestrator
  unfolding notify
  answered agent turn (relay, ok, reply) o =
      if ok
      then (
        some reply,
        record o {
          relay = relay;
          turns = List.◌++◌ o.turns (record { speaker = agent; output = reply; turn = turn } ∷ []);
        },
      )
      else (none, notify (call_failed agent (h.first 200 reply)) (record o { relay = relay }))

  -- `_delegate_once`
  unfoldable pub delegate_once : String → String → ℕ → Orchestrator → Option String × Orchestrator
  unfolding project_of notify answered
  delegate_once agent message turn o = elim (project_of agent) [
    | none ↦ (none, notify (unknown_agent agent) o)
    | some project ↦
        answered agent turn
          (send h.hash h.show (h.first 500) (h.run o.relay.guard.hop_count)
            (record {
              to_project = project;
              agent_id = agent;
              message = message;
              turn = turn;
              timeout = h.default_timeout;
            })
            o.relay)
          o
  ]

  -- `_derive_issue`
  unfoldable pub derive_issue : List TurnRecord → String
  derive_issue turns = if ltb (length turns) 2 then "" else "请回应上一位发言者的观点：同意/反驳/补充，并给出理由或证据。"

  abbrev markers : List String
  markers = "不同意" ∷ "不对" ∷ "反驳" ∷ "不赞同" ∷ "问题" ∷ "错误" ∷ "wrong" ∷ "disagree" ∷ []

  marked : List String → String → Bool
  marked [] text = false
  marked (m ∷ ms) text = h.has m text || marked ms text

  any_marked : List TurnRecord → Bool
  unfolding marked
  any_marked [] = false
  any_marked (t ∷ rest) = marked markers t.output || any_marked rest

  -- `_is_converged`
  unfoldable pub is_converged : List TurnRecord → Bool
  unfolding any_marked
  is_converged turns =
      if ltb (length turns) 3 then false else not (any_marked (drop (length turns - 2) turns))

  -- `_select_speaker`: the first agent but the one who spoke last; `agents` is not empty.
  unfoldable pub select_speaker : List String → List TurnRecord → String
  unfolding other_than
  select_speaker [] turns = ""
  select_speaker (a ∷ []) turns = a
  select_speaker (a ∷ b ∷ rest) turns = or_first a (other_than (last_turn turns) (a ∷ b ∷ rest))

  -- `{t.speaker: t.output for t in self._turns}`
  outputs_of : List TurnRecord → Dict String → Dict String
  outputs_of [] d = d
  outputs_of (t ∷ rest) d = outputs_of rest (insert t.speaker t.output d)

  abbrev pub working_on : String → String → TaskRow → TaskRow
  working_on mode speaker row = record row { mode = mode; current_speaker = speaker }

  -- How a mode ends.
  unfoldable pub final_summary : Orchestrator → Orchestrator
  unfolding update_task notify outputs_of
  final_summary o =
      let o' = update_task (λ row. record row { current_speaker = "hermes" }) o in
      notify (summary (h.summarise (outputs_of o'.turns []))) o'

  -- The fuses at the head of a turn, with the count of stalls that they leave: `none` goes on, the
  -- flag of `some` says whether there is a summary.
  unfoldable pub fuses : HopGuard → ℕ → Orchestrator → Option Bool × ℕ × Orchestrator
  unfolding would_exceed_max_hops notify
  fuses guard n_stalls o =
      if would_exceed_max_hops max_hops_discussion guard
      then (some false, n_stalls, notify hops_exceeded o)
      else (let stalls =
            if guard.ping_pong_detected then min (n_stalls + 1) max_stalls else n_stalls in
          let o' = if guard.ping_pong_detected then notify ping_pong o else o in
          if leb repeat_fuse guard.consecutive_repeat
          then (some true, stalls, notify repeated o')
          else if leb max_stalls stalls
          then (some true, stalls, notify stalled o')
          else (none, stalls, o'))

  -- The count of stalls after a turn, by the guard that was read at its head.
  unfoldable pub decayed : HopGuard → ℕ → ℕ
  decayed guard n_stalls =
      if not guard.ping_pong_detected && guard.consecutive_repeat == 0
      then n_stalls - 1
      else n_stalls
