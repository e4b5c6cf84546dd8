-- ===== src/Tests/Routing.antt =====
-- The routing of src/hermes-adapter/policy.py at concrete inputs.
use ai_agent_desktop.Base.{
  String, ◌≡◌, ◌↔◌, ◌⊎◌, refl, true, false, none, some, [], ◌∷◌, contains, is_empty, str_eq,
}
use ai_agent_desktop.Hermes.Policy.{MultiAgentConfig, RouteInput, Texts, named, decide}
use ai_agent_desktop.Hermes.Routing.{Names, Replies, is_bare_at_all, decide_coherent, targets_iff}

-- Texts whose handles and case are already plain.
abbrev plain_texts : Texts
plain_texts = record {
  lower = λ a. a;
  handle = λ a. a;
  has = λ a b. str_eq a b;
  starts_with = λ a b. str_eq a b;
  find_handles = λ a. a ∷ [];
  reply_handle = λ a. some a;
  show_list = λ agents. "";
}

abbrev two_bots : MultiAgentConfig
two_bots = record {
  agents =
      record { name = "hermes"; telegram_username = "hermes_bot"; role = "orchestrator" }
      ∷ record { name = "claude"; telegram_username = "claude_bot"; role = "coder" }
      ∷ [];
  at_all_aliases = "all" ∷ [];
}

-- A reply to Claude that names Hermes.
abbrev named_reply : RouteInput
named_reply = record {
  text = "look at this";
  chat_id = "g1";
  chat_type = "group";
  thread_id = none;
  user_id = some "u1";
  user_name = none;
  message_id = some "m2";
  reply_to_message_id = some "m1";
  reply_to_text = some "claude_bot";
  sender_is_bot = false;
  mentions = some ("hermes_bot" ∷ []);
  is_command = false;
  command_name = none;
  has_images = false;
  has_files = false;
  has_audio = false;
}

decide_coherent_example :
    ((decide plain_texts named_reply two_bots none).should_write_shared ≡ false)
    × ((decide plain_texts named_reply two_bots none).should_write_session ≡ true
        → (decide plain_texts named_reply two_bots none).should_dispatch ≡ true)
    × ((decide plain_texts named_reply two_bots none).should_dispatch
        ≡ contains (decide plain_texts named_reply two_bots none).target_agents "hermes")
    × ((decide plain_texts named_reply two_bots none).observed
        ≡ is_empty (decide plain_texts named_reply two_bots none).target_agents)
decide_coherent_example = decide_coherent plain_texts named_reply two_bots none

targets_iff_example :
    (contains (decide plain_texts named_reply two_bots none).target_agents "claude" ≡ true) ↔ (
      Names plain_texts two_bots (named plain_texts named_reply two_bots) "claude"
      ⊎ (((b : String) → ¬ Names plain_texts two_bots (named plain_texts named_reply two_bots) b)
          × (is_bare_at_all plain_texts named_reply two_bots ≡ false)
          × Replies plain_texts named_reply two_bots none "claude"))
targets_iff_example = targets_iff plain_texts named_reply two_bots none "claude" refl refl refl
