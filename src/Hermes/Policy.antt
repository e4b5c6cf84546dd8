-- ===== src/Hermes/Policy.antt =====
-- `decide` of src/hermes-adapter/policy.py, and the configuration it reads, of config.py.
use Prim.Native.String.{◌++◌}
use mathlib.Core.List
use ai_agent_desktop.Base.{
  String, Bool, true, false, not, ◌&&◌, ◌||◌, Option, none, some, List, [], ◌∷◌, str_eq, contains,
  is_empty, if◌then◌else◌,
}

pub record AgentSpec : Type 0 where
  pub name : String
  pub telegram_username : String
  pub role : String

-- `agents` are the values of the dictionary, in its order.
pub record MultiAgentConfig : Type 0 where
  pub agents : List AgentSpec
  pub at_all_aliases : List String

pub record RouteInput : Type 0 where
  pub text : String
  pub chat_id : String
  pub chat_type : String
  pub thread_id : Option String
  pub user_id : Option String
  pub user_name : Option String
  pub message_id : Option String
  pub reply_to_message_id : Option String
  pub reply_to_text : Option String
  pub sender_is_bot : Bool
  pub mentions : Option (List String)
  pub is_command : Bool
  pub command_name : Option String
  pub has_images : Bool
  pub has_files : Bool
  pub has_audio : Bool

-- `memory_policy` is left out: `decide` never sets it.
pub record RouteDecision : Type 0 where
  pub target_agents : List String
  pub trigger_type : String
  pub route_reason : String
  pub should_dispatch : Bool
  pub should_write_session : Bool
  pub should_write_shared : Bool
  pub reference_context : Option String
  pub observed : Bool
  pub notice : Option String

-- `RouteDecision()`
abbrev pub undecided : RouteDecision
undecided = record {
  target_agents = [];
  trigger_type = "none";
  route_reason = "";
  should_dispatch = false;
  should_write_session = false;
  should_write_shared = false;
  reference_context = none;
  observed = false;
  notice = none;
}

-- What Python's `str` and `re` make of texts: `str.lower`, `lstrip("@").lower()`, `b in a`,
-- `a.startswith(b)`, the handles that `_MENTION_RE` finds, the first that the pattern of a reply
-- finds, and the text of a list.
pub record Texts : Type 0 where
  pub lower : String → String
  pub handle : String → String
  pub has : String → String → Bool
  pub starts_with : String → String → Bool
  pub find_handles : String → List String
  pub reply_handle : String → Option String
  pub show_list : List String → String

-- A text that is absent or empty is false in a Python condition.
abbrev pub or_empty : Option String → String
or_empty none = ""
or_empty (some a) = a

abbrev pub given : Option String → Bool
given a = not (str_eq (or_empty a) "")

dedupe : List String → List String → List String
dedupe seen [] = []
dedupe seen (u ∷ rest) = if contains seen u then dedupe seen rest else u ∷ dedupe (u ∷ seen) rest

join_with : String → List String → String
join_with separator [] = ""
join_with separator (a ∷ []) = a
join_with separator (a ∷ b ∷ rest) = a ++ separator ++ join_with separator (b ∷ rest)

module _ (texts : Texts) where
  lower_all : List String → List String
  lower_all [] = []
  lower_all (m ∷ rest) = texts.lower m ∷ lower_all rest

  -- `parse_mentions` without entities.
  unfoldable pub parse_mentions : String → List String
  unfolding dedupe lower_all
  parse_mentions text =
      dedupe [] (if str_eq text "" then [] else lower_all (texts.find_handles text))

  unfoldable pub is_at_all : String → List String → Bool
  is_at_all text [] = false
  is_at_all text (a ∷ rest) = texts.has (texts.lower text) (texts.lower a) || is_at_all text rest

  find_spec : String → List AgentSpec → Option AgentSpec
  find_spec u [] = none
  find_spec u (a ∷ rest) =
      if not (str_eq a.telegram_username "") && str_eq (texts.handle a.telegram_username) u
      then some a
      else find_spec u rest

  unfoldable pub agent_for_username : MultiAgentConfig → String → Option AgentSpec
  unfolding find_spec
  agent_for_username cfg username =
      if str_eq username "" then none else find_spec (texts.handle username) cfg.agents

  unfoldable pub resolve_agent : MultiAgentConfig → String → Option String
  resolve_agent cfg username = elim (agent_for_username cfg username) [
    | none ↦ none
    | some spec ↦ some spec.name
  ]

  agent_in_text : MultiAgentConfig → Option String → Option String
  agent_in_text cfg none = none
  agent_in_text cfg (some text) =
      if str_eq text ""
      then none
      else elim (texts.reply_handle text) [ none ↦ none | some u ↦ resolve_agent cfg u ]

  unfoldable pub agent_from_reply : MultiAgentConfig → Option String → Option String → Option String
  unfolding agent_in_text
  agent_from_reply cfg reply_text store_lookup_agent =
      if given store_lookup_agent then store_lookup_agent else agent_in_text cfg reply_text

  handles : List String → List String
  handles [] = []
  handles (a ∷ rest) = texts.handle a ∷ handles rest

  without : List String → List String → List String
  without aliases [] = []
  without aliases (m ∷ rest) =
      let more = without aliases rest in if contains aliases m then more else m ∷ more

  -- `mentions`, after the aliases of `@all` are taken out.
  unfoldable pub named : RouteInput → MultiAgentConfig → List String
  unfolding handles without
  named input cfg =
      without (handles cfg.at_all_aliases)
        (elim input.mentions [ none ↦ parse_mentions input.text | some given ↦ given ])

  -- The loop over `mentions`, with the list `mentioned_agents`.
  unfoldable pub resolve_all : MultiAgentConfig → List String → List String → List String
  resolve_all cfg mentioned [] = mentioned
  resolve_all cfg mentioned (u ∷ rest) =
      let a = resolve_agent cfg u in
      let more = List.◌++◌ mentioned (or_empty a ∷ []) in
      resolve_all cfg (if given a && not (contains mentioned (or_empty a)) then more else mentioned)
        rest

  unfoldable pub mentioned_agents : RouteInput → MultiAgentConfig → List String
  mentioned_agents input cfg = resolve_all cfg [] (named input cfg)

  decide_command : RouteInput → RouteDecision
  decide_command input =
      let cmd = texts.lower (or_empty input.command_name) in
      if texts.starts_with cmd "ma"
      then record undecided {
        target_agents = "hermes" ∷ [];
        trigger_type = "command";
        route_reason = "governance command /" ++ cmd;
        should_dispatch = true;
      }
      else record undecided {
        target_agents = "hermes" ∷ [];
        trigger_type = "command";
        route_reason = "builtin command /" ++ cmd;
        should_dispatch = true;
        should_write_session = true;
      }

  reply_and_mention : List String → String → Option String → RouteDecision
  unfolding join_with
  reply_and_mention agents replied reply_to_text = record undecided {
    target_agents = agents;
    trigger_type = "mention";
    route_reason =
        "reply to "
        ++ replied
        ++ " + @"
        ++ join_with " @" agents
        ++ " -> only @'d agent(s); "
        ++ replied
        ++ " text attached as reference";
    should_dispatch = contains agents "hermes";
    should_write_session = contains agents "hermes";
    reference_context =
        if contains agents replied
        then none
        else some ("[Referenced message from " ++ replied ++ "]: " ++ or_empty reply_to_text);
  }

  at_all_notice : RouteDecision
  at_all_notice = record undecided {
    trigger_type = "broadcast";
    route_reason = "@all recognised but real 3-bot broadcast requires Relay stage";
    observed = true;
    notice =
        some
          "@all 当前未完整启用：cc-connect 两个 Bot 在 group_reply_all=false 下 不会响应 @all。真正广播需下一阶段 Relay/Gateway 支持。";
  }

  -- From `mentioned_agents` and `replied_agent` on.
  unfoldable pub decide_agents : List String → Bool → Option String → Option String → RouteDecision
  unfolding reply_and_mention
  decide_agents agents has_reply replied reply_to_text =
      if not (is_empty agents) && (has_reply && given replied)
      then reply_and_mention agents (or_empty replied) reply_to_text
      else if not (is_empty agents)
      then record undecided {
        target_agents = agents;
        trigger_type = "mention";
        route_reason = "explicit @mention -> " ++ texts.show_list agents;
        should_dispatch = contains agents "hermes";
        should_write_session = contains agents "hermes";
      }
      else if has_reply && given replied
      then record undecided {
        target_agents = or_empty replied ∷ [];
        trigger_type = "reply";
        route_reason = "reply to " ++ or_empty replied ++ " (no @) -> only " ++ or_empty replied;
        should_dispatch = str_eq (or_empty replied) "hermes";
        should_write_session = str_eq (or_empty replied) "hermes";
      }
      else record undecided {
        route_reason = "plain group message - all bots silent (observed only)";
        observed = true;
      }

  unfoldable pub decide_group : RouteInput → MultiAgentConfig → Option String → RouteDecision
  unfolding is_at_all at_all_notice decide_agents
  decide_group input cfg reply_target_agent =
      if is_at_all input.text cfg.at_all_aliases && is_empty (named input cfg)
      then at_all_notice
      else decide_agents (mentioned_agents input cfg) (given input.reply_to_message_id)
          (agent_from_reply cfg input.reply_to_text reply_target_agent) input.reply_to_text

  unfoldable pub decide : RouteInput → MultiAgentConfig → Option String → RouteDecision
  unfolding decide_command decide_group
  decide input cfg reply_target_agent =
      if str_eq input.chat_type "dm"
      then record undecided {
        target_agents = "hermes" ∷ [];
        trigger_type = if input.is_command then "command" else "mention";
        route_reason = "dm-direct";
        should_dispatch = true;
        should_write_session = true;
      }
      else if input.sender_is_bot
      then record undecided {
        route_reason = "anti-loop: bot-origin message ignored";
        observed = true;
      }
      else if input.is_command
      then decide_command input
      else decide_group input cfg reply_target_agent
