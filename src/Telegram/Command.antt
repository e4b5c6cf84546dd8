-- ===== src/Telegram/Command.antt =====
-- The commands of control_plane/telegram/binding_service.py: what `_created_response` tells the
-- operator to send, and what `_extract_code` and `_is_group_start_fallback` read from a message.
-- `casefold` is `str.casefold`.
use Prim.Native.Char.{code}
use ai_agent_desktop.Base.{
  ℕ, String, Bool, true, false, ◌&&◌, ◌||◌, Option, none, some, List, [], ◌∷◌, ◌++◌, leb, ◌==◌,
  if◌then◌else◌, is_empty,
}
use ai_agent_desktop.Telegram.Rows.{Text, ChatType, private_chat, group, supergroup}

abbrev pub codes : String → Text
codes String.[] = []
codes (String.◌∷◌ c s) = code c ∷ codes s

pub data TelegramBotSlot : Type 0 where
  hermes claude codex : TelegramBotSlot

abbrev pub candidates : List TelegramBotSlot
candidates = hermes ∷ claude ∷ codex ∷ []

abbrev pub slot_name : TelegramBotSlot → String
slot_name hermes = "hermes"
slot_name claude = "claude"
slot_name codex = "codex"

-- `f"{candidate}_"`
abbrev pub slot_prefix : TelegramBotSlot → Text
slot_prefix hermes = codes "hermes_"
slot_prefix claude = codes "claude_"
slot_prefix codex = codes "codex_"

-- What `str.split` and `str.strip` take for white space.
unfoldable pub is_space : ℕ → Bool
is_space c =
    (leb 9 c && leb c 13)
    || (leb 28 c && leb c 32)
    || c == 133
    || c == 160
    || c == 5760
    || (leb 8192 c && leb c 8202)
    || c == 8232
    || c == 8233
    || c == 8239
    || c == 8287
    || c == 12288

unfoldable pub lstrip : Text → Text
lstrip [] = []
lstrip (c ∷ cs) = if is_space c then lstrip cs else c ∷ cs

unfoldable pub rstrip : Text → Text
rstrip [] = []
rstrip (c ∷ cs) = let rest = rstrip cs in if is_space c && is_empty rest then [] else c ∷ rest

unfoldable pub strip : Text → Text
strip text = rstrip (lstrip text)

abbrev pub put_word : Text → List Text → List Text
put_word [] words = words
put_word (c ∷ cs) words = (c ∷ cs) ∷ words

-- The word that the text begins with, which may be empty, and the words after it.
unfoldable pub scan : Text → Text × List Text
scan [] = ([], [])
scan (c ∷ cs) =
    let rest = scan cs in if is_space c then ([], put_word rest.0 rest.1) else (c ∷ rest.0, rest.1)

-- `text.strip().split()`
unfoldable pub parts : Text → List Text
parts text = let words = scan (strip text) in put_word words.0 words.1

abbrev pub text_eq : Text → Text → Bool
text_eq [] [] = true
text_eq (x ∷ xs) (y ∷ ys) = x == y && text_eq xs ys
text_eq _ _ = false

-- The rest of the text, where it starts with the prefix.
abbrev pub after_prefix : Text → Text → Option Text
after_prefix [] text = some text
after_prefix (p ∷ ps) [] = none
after_prefix (p ∷ ps) (c ∷ cs) = if p == c then after_prefix ps cs else none

abbrev pub Extracted : Type 0
Extracted = Option Text × Option TelegramBotSlot

-- `for candidate in SLOTS`, then what follows the loop.
unfoldable pub first_slot : List TelegramBotSlot → Text → Extracted → Extracted
first_slot [] value otherwise = otherwise
first_slot (candidate ∷ rest) value otherwise = elim (after_prefix (slot_prefix candidate) value) [
  | some found ↦ (some found, some candidate)
  | none ↦ first_slot rest value otherwise
]

-- `code.removeprefix("bind_") if code.startswith("bind_") else code`
unfoldable pub bare_code : Text → Text
bare_code code = elim (after_prefix (codes "bind_") code) [ some value ↦ value | none ↦ code ]

abbrev pub nothing : Extracted
nothing = (none, none)

-- The value of a `/bind` command, whose slot may be missing.
unfoldable pub bind_value : Text → Extracted
unfolding bare_code first_slot
bind_value code = first_slot candidates (bare_code code) (some (bare_code code), none)

-- The value of a `/start` command in a private chat.
unfoldable pub private_start : Text → Extracted
unfolding first_slot
private_start code = elim (after_prefix (codes "bind_") code) [
  | some value ↦ first_slot candidates value (some value, none)
  | none ↦ nothing
]

-- The value of a `/start` command in a group, where the slot is required.
unfoldable pub group_start : Text → Extracted
unfolding first_slot
group_start code = elim (after_prefix (codes "bind_") code) [
  | some value ↦ first_slot candidates value nothing
  | none ↦ nothing
]

abbrev pub is_group_chat : ChatType → Bool
is_group_chat group = true
is_group_chat supergroup = true
is_group_chat _ = false

abbrev pub is_private_chat : ChatType → Bool
is_private_chat private_chat = true
is_private_chat _ = false

module _ (casefold : Text → Text) where
  -- `command_lower == f"{name}@{username}".casefold()`
  unfoldable pub addressed : String → Text → Text → Bool
  addressed name username command =
      text_eq (casefold command) (casefold (codes name ++ codes "@" ++ username))

  unfoldable pub extract_words : ChatType → Text → Text → Text → Extracted
  unfolding addressed
  extract_words chat username command code =
      if is_private_chat chat
      then (if text_eq (casefold command) (codes "/bind")
          then bind_value code
          else if addressed "/bind" username command
          then bind_value code
          else if text_eq (casefold command) (codes "/start")
          then private_start code
          else nothing)
      else if is_group_chat chat
      then (if addressed "/bind" username command
          then bind_value code
          else if text_eq (casefold command) (codes "/start") || addressed "/start" username command
          then group_start code
          else nothing)
      else nothing

  -- `_extract_code`, on the list of words.
  abbrev pub extract_parts : ChatType → Text → List Text → Extracted
  extract_parts chat username (command ∷ code ∷ []) = extract_words chat username command code
  extract_parts chat username _ = nothing

  unfoldable pub extract_code : Text → ChatType → Text → Extracted
  extract_code text chat username = extract_parts chat username (parts text)

  -- `_is_group_start_fallback`
  unfoldable pub is_group_start_fallback : Text → ChatType → Text → Bool
  unfolding addressed
  is_group_start_fallback text chat username =
      is_group_chat chat
      && (text_eq (casefold (strip text)) (codes "/start")
          || addressed "/start" username (strip text))

-- `bind_{slot}_{code}`
unfoldable pub bind_payload : TelegramBotSlot → Text → Text
bind_payload slot code = codes "bind_" ++ slot_prefix slot ++ code

-- `private_commands`
unfoldable pub private_command : TelegramBotSlot → Text → Text
private_command slot code = codes "/bind " ++ bind_payload slot code

-- `group_commands`
unfoldable pub group_command : Text → TelegramBotSlot → Text → Text
group_command username slot code =
    codes "/bind@" ++ (username ++ (codes " " ++ bind_payload slot code))
