-- ===== src/Hermes/Routing.antt =====
-- Which agents src/hermes-adapter/policy.py sends a message to.
use ai_agent_desktop.Base.{
  String, ◌≡◌, ◌≢◌, ◌↔◌, ◌⊎◌, inl, inr, refl, true, false, Bool, not, ◌&&◌, ◌||◌, Option, none,
  some, List, [], ◌∷◌, ◌++◌, arith, str_eq, eq_iff, eq_refl, contains, is_empty, Bool-cases,
  if◌then◌else◌,
}
use ai_agent_desktop.Hermes.Policy.{
  MultiAgentConfig, RouteInput, Texts, given, or_empty, is_at_all, named, resolve_agent,
  resolve_all, mentioned_agents, agent_from_reply, decide, decide_agents, decide_group,
}

-- The handle of an agent, which has a name, stands in the list.
abbrev pub Names : Texts → MultiAgentConfig → List String → String → Type 0
Names texts cfg us a =
    (a ≢ "") × (u : String) × (contains us u ≡ true) × (resolve_agent texts cfg u ≡ some a)

contains-append :
    (xs : List String) (x a : String) → contains (xs ++ x ∷ []) a ≡ contains xs a || str_eq x a
contains-append [] x a = ground arith
contains-append (y ∷ ys) x a = ground (arith, contains-append ys x a)

-- One round of the loop over the mentions.
add_agent : List String → Option String → List String
add_agent mentioned a =
    if given a && not (contains mentioned (or_empty a))
    then mentioned ++ or_empty a ∷ []
    else mentioned

contains-add_agent :
    (mentioned : List String) (found : Option String) (a : String)
    → (contains (add_agent mentioned found) a ≡ true)
      ↔ ((contains mentioned a ≡ true) ⊎ ((a ≢ "") × (found ≡ some a)))
unfolding add_agent
contains-add_agent mentioned none a = ground (arith, eq_refl "")
contains-add_agent mentioned (some b) a =
    ground (arith, contains-append mentioned b a, eq_iff b a, eq_iff b "")

Names-cons :
    (texts : Texts) (cfg : MultiAgentConfig) (u : String) (us : List String) (a : String)
    → Names texts cfg (u ∷ us) a
      ↔ (((a ≢ "") × (resolve_agent texts cfg u ≡ some a)) ⊎ Names texts cfg us a)
Names-cons texts cfg u us a = (
  (λ (named, v, here, is_a). elim (Bool-cases (str_eq u v)) [
    | inl same ↦ inl (named, ground (arith, eq_iff u v))
    | inr other ↦ inr (named, v, ground arith, is_a)
  ]),
  (λ h. elim h [
    | inl (named, is_a) ↦ (named, u, ground (arith, eq_refl u), is_a)
    | inr (named, v, there, is_a) ↦ (named, v, ground arith, is_a)
  ]),
)

contains-resolve_all :
    (texts : Texts) (cfg : MultiAgentConfig) (mentioned us : List String) (a : String)
    → (contains (resolve_all texts cfg mentioned us) a ≡ true)
      ↔ ((contains mentioned a ≡ true) ⊎ Names texts cfg us a)
unfolding resolve_all add_agent
contains-resolve_all texts cfg mentioned [] a = (
  (λ h. inl h),
  (λ h. elim h [ inl here ↦ here | inr (named, u, none_here, is_a) ↦ ground arith ]),
)
contains-resolve_all texts cfg mentioned (u ∷ us) a =
    let found = resolve_agent texts cfg u in
    let rest = contains-resolve_all texts cfg (add_agent mentioned found) us a in
    let here = contains-add_agent mentioned found a in
    let split = Names-cons texts cfg u us a in
    (
      (λ h. elim (rest.0 h) [
        | inl held ↦ elim (here.0 held) [ inl old ↦ inl old | inr new ↦ inr (split.1 (inl new)) ]
        | inr later ↦ inr (split.1 (inr later))
      ]),
      (λ h. rest.1 (elim h [
        | inl old ↦ inl (here.1 (inl old))
        | inr names ↦ elim (split.0 names) [
          | inl new ↦ inl (here.1 (inr new))
          | inr later ↦ inr later
        ]
      ])),
    )

Names-contains :
    (texts : Texts) (input : RouteInput) (cfg : MultiAgentConfig) (a : String)
    → (contains (mentioned_agents texts input cfg) a ≡ true)
      ↔ Names texts cfg (named texts input cfg) a
unfolding mentioned_agents
Names-contains texts input cfg a =
    let found = contains-resolve_all texts cfg [] (named texts input cfg) a in
    (
      (λ h. elim (found.0 h) [ inl none_yet ↦ ground arith | inr names ↦ names ]),
      (λ names. found.1 (inr names)),
    )

-- A list is empty if and only if nothing is in it.
is_empty_iff : (xs : List String) → (is_empty xs ≡ true) ↔ ((a : String) → contains xs a ≡ false)
is_empty_iff [] = ((λ h a. refl), (λ h. refl))
is_empty_iff (x ∷ xs) =
    ((λ h a. ground arith), (λ h. let found = h x in ground (arith, eq_refl x, found)))

-- For every message: shared memory is not written; the session is written only for a message that is
-- dispatched; it is dispatched exactly if Hermes is one of its targets; and it is only observed
-- exactly if it has no target.
pub decide_coherent :
    (texts : Texts) (input : RouteInput) (cfg : MultiAgentConfig) (reply : Option String)
    → ((decide texts input cfg reply).should_write_shared ≡ false)
      × ((decide texts input cfg reply).should_write_session ≡ true
          → (decide texts input cfg reply).should_dispatch ≡ true)
      × ((decide texts input cfg reply).should_dispatch
          ≡ contains (decide texts input cfg reply).target_agents "hermes")
      × ((decide texts input cfg reply).observed
          ≡ is_empty (decide texts input cfg reply).target_agents)
unfolding decide
decide_coherent texts input cfg reply = (ground arith, ground arith, ground arith, ground arith)

-- The message replies to one of the agent, as far as the store or the text of the reply tells.
abbrev pub Replies : Texts → RouteInput → MultiAgentConfig → Option String → String → Type 0
Replies texts input cfg reply a =
    (given input.reply_to_message_id ≡ true)
    × (a ≢ "")
    × (agent_from_reply texts cfg input.reply_to_text reply ≡ some a)

-- The message mentions all and names nobody else.
abbrev pub is_bare_at_all : Texts → RouteInput → MultiAgentConfig → Bool
is_bare_at_all texts input cfg =
    is_at_all texts input.text cfg.at_all_aliases && is_empty (named texts input cfg)

Names-is_empty :
    (texts : Texts) (input : RouteInput) (cfg : MultiAgentConfig)
    → (is_empty (mentioned_agents texts input cfg) ≡ true)
      ↔ ((b : String) → ¬ Names texts cfg (named texts input cfg) b)
Names-is_empty texts input cfg = (
  (λ h b names.
      let held = (Names-contains texts input cfg b).1 names in
      let nothing = (is_empty_iff (mentioned_agents texts input cfg)).0 h b in ground arith),
  (λ h. (is_empty_iff (mentioned_agents texts input cfg)).1 (λ b.
      elim (Bool-cases (contains (mentioned_agents texts input cfg) b)) [
        | inl held ↦ absurd (h b ((Names-contains texts input cfg b).0 held))
        | inr free ↦ free
      ])),
)

Names-is_bare_at_all :
    (texts : Texts) (input : RouteInput) (cfg : MultiAgentConfig) (a : String)
    → Names texts cfg (named texts input cfg) a
    → is_bare_at_all texts input cfg ≡ false
Names-is_bare_at_all texts input cfg a (is_name, u, held, is_a) =
    elim (Bool-cases (is_empty (named texts input cfg))) [
      | inl nothing ↦
          let free = (is_empty_iff (named texts input cfg)).0 nothing u in absurd (ground arith)
      | inr some_left ↦ ground arith
    ]

agent_targets :
    (texts : Texts) (agents : List String) (has_reply : Bool) (replied text : Option String)
    (a : String)
    → (contains (decide_agents texts agents has_reply replied text).target_agents a ≡ true) ↔ (
        (contains agents a ≡ true)
        ⊎ ((is_empty agents ≡ true) × ((has_reply ≡ true) × (a ≢ "") × (replied ≡ some a))))
unfolding decide_agents
agent_targets texts (b ∷ agents) true none text a = ground arith
agent_targets texts (b ∷ agents) true (some c) text a = elim (Bool-cases (str_eq c "")) [
  | inl e ↦ ground arith
  | inr e ↦ ground arith
]
agent_targets texts (b ∷ agents) false replied text a = ground arith
agent_targets texts [] true none text a = ground arith
agent_targets texts [] true (some c) text a = elim (Bool-cases (str_eq c "")) [
  | inl e ↦ ground (arith, eq_iff c a, eq_iff c "")
  | inr e ↦ ground (arith, eq_iff c a, eq_iff c "")
]
agent_targets texts [] false replied text a = ground arith

decide_talk :
    (texts : Texts) (input : RouteInput) (cfg : MultiAgentConfig) (reply : Option String)
    → str_eq input.chat_type "dm" ≡ false
    → input.sender_is_bot ≡ false
    → input.is_command ≡ false
    → decide texts input cfg reply ≡ decide_group texts input cfg reply
unfolding decide
decide_talk texts input cfg reply group human talk = ground arith

target_cases :
    (texts : Texts) (input : RouteInput) (cfg : MultiAgentConfig) (reply : Option String)
    (a : String)
    → (contains (decide_group texts input cfg reply).target_agents a ≡ true) ↔ (
        (is_bare_at_all texts input cfg ≡ false)
        × ((contains (mentioned_agents texts input cfg) a ≡ true)
            ⊎ ((is_empty (mentioned_agents texts input cfg) ≡ true)
                × Replies texts input cfg reply a)))
unfolding decide_group
target_cases texts input cfg reply a =
    let targets =
      agent_targets texts (mentioned_agents texts input cfg) (given input.reply_to_message_id)
        (agent_from_reply texts cfg input.reply_to_text reply) input.reply_to_text a in
    elim (Bool-cases (is_bare_at_all texts input cfg)) [
      | inl bare ↦ rw bare ground arith
      | inr free ↦ rw free ((λ h. (refl, targets.0 h)), (λ h. targets.1 h.1))
    ]

-- A message in a group from a human that is no command goes to exactly these agents: those that it
-- names, if it names any; otherwise the one it replies to, unless it is a bare mention of all.
pub targets_iff :
    (texts : Texts) (input : RouteInput) (cfg : MultiAgentConfig) (reply : Option String)
    (a : String)
    → str_eq input.chat_type "dm" ≡ false
    → input.sender_is_bot ≡ false
    → input.is_command ≡ false
    → (contains (decide texts input cfg reply).target_agents a ≡ true) ↔ (
        Names texts cfg (named texts input cfg) a
        ⊎ (((b : String) → ¬ Names texts cfg (named texts input cfg) b)
            × (is_bare_at_all texts input cfg ≡ false)
            × Replies texts input cfg reply a))
targets_iff texts input cfg reply a group human talk =
    let cases = target_cases texts input cfg reply a in
    let names = Names-contains texts input cfg a in
    let nobody = Names-is_empty texts input cfg in
    rw (decide_talk texts input cfg reply group human talk) (
      (λ h. elim (cases.0 h).1 [
        | inl held ↦ inl (names.0 held)
        | inr (nothing, replies) ↦ inr (nobody.0 nothing, (cases.0 h).0, replies)
      ]),
      (λ h. cases.1 (elim h [
        | inl named_a ↦ (Names-is_bare_at_all texts input cfg a named_a, inl (names.1 named_a))
        | inr (none_named, bare, replies) ↦ (bare, inr (nobody.1 none_named, replies))
      ])),
    )
