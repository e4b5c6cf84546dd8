-- ===== src/Telegram/Updates.antt =====
-- `_process_update` of control_plane/telegram/binding_service.py and what it calls, on the rows of
-- one session.
use Prim.Native.Nat.{◌/◌}
use ai_agent_desktop.Base.{
  ℕ, ◌+◌, String, Bool, false, not, ◌&&◌, Option, none, some, ltb, ◌==◌, str_eq, if◌then◌else◌,
}
use ai_agent_desktop.Base.Dict.{lookup}
use ai_agent_desktop.Base.Int.{ℤ, int_eq, opt_int_eq}
use ai_agent_desktop.Telegram.Rows.{
  Text, is_bound, ChatType, channel, other, SessionRecord, SlotRecord, Rows, audit,
  expire_if_needed,
}
use ai_agent_desktop.Telegram.Command.{
  codes, TelegramBotSlot, slot_name, extract_code, is_group_start_fallback,
}
use ai_agent_desktop.Telegram.Payload.{
  ◌>>=◌, Chat, Message, NewMember, Membership, Update, is_closed, is_stale, touched,
}
use ai_agent_desktop.Telegram.Applied.{put_slot, by_chat, by_status}

-- What the checks of the code say to a message.
pub data Verdict : Type 0 where
  ignored : Verdict
  refused : String → Verdict
  accepted : Verdict

abbrev pub is_wrong_slot : String → Option TelegramBotSlot → Bool
is_wrong_slot slot none = false
is_wrong_slot slot (some embedded) = not (str_eq (slot_name embedded) slot)

abbrev pub is_old : ℕ → SessionRecord → Bool
is_old date b = ltb (date + 5) (b.created_at / 1000000)

abbrev pub is_other_bot : Option ℤ → ℤ → Bool
is_other_bot none bot = false
is_other_bot (some user) bot = not (int_eq user bot)

-- The checks of a membership update on who and where, as the event of the refusal.
unfoldable pub membership_refusal :
    ℕ → Option ℤ → ℤ → ChatType → SlotRecord → SessionRecord → Option String
membership_refusal date user sender kind r b =
    if is_old date b
    then some "binding.old_membership_update_ignored"
    else if is_other_bot user r.bot_id
    then some "binding.membership_wrong_bot_rejected"
    else if not (is_bound r.private_status)
    then some "binding.group_before_private_rejected"
    else if not (opt_int_eq b.operator_user_id (some sender))
    then some "binding.group_membership_wrong_operator_rejected"
    else elim kind [ channel ↦ some "binding.channel_rejected" | _ ↦ none ]

-- What both kinds of updates check first, and then `work` on the touched row of the slot.
unfoldable pub open_update : ℕ → String → ℕ → String → (SlotRecord → Rows → Rows) → Rows → Rows
unfolding audit put_slot touched
open_update now slot update_id stale work rows = elim (lookup slot rows.slots) [
  | none ↦ rows
  | some r ↦
      let rows = record rows { binding = expire_if_needed now rows.binding } in
      if is_closed rows.binding.state
      then rows
      else if is_stale update_id r
      then audit now (some slot) stale rows
      else work (touched now update_id r) (put_slot slot (touched now update_id r) rows)
]

unfoldable pub membership_work :
    ℕ → String → ℕ → ℤ → ℤ → ℕ → Chat → ChatType → NewMember → SlotRecord → Rows → Rows
unfolding membership_refusal by_status audit
membership_work now slot update_id sender chat_id date chat kind new_member r rows =
    elim (membership_refusal date new_member.user sender kind r rows.binding) [
      | some event ↦ audit now (some slot) event rows
      | none ↦ by_status now slot update_id chat_id chat kind new_member.status r rows
    ]

-- `_process_membership_update` after the fields are read.
unfoldable pub membership_update :
    ℕ → String → ℕ → ℤ → ℤ → ℕ → Chat → ChatType → NewMember → Rows → Rows
unfolding open_update membership_work
membership_update now slot update_id sender chat_id date chat kind new_member rows =
    open_update now slot update_id "binding.stale_membership_update_ignored"
      (membership_work now slot update_id sender chat_id date chat kind new_member) rows

abbrev pub or_other : Option ChatType → ChatType
or_other none = other
or_other (some kind) = kind

-- What the update does, if its fields can be read.
abbrev pub or_same : Rows → Option Rows → Rows
or_same rows none = rows
or_same rows (some rows') = rows'

unfoldable pub read_membership : ℕ → String → ℕ → Membership → Rows → Option Rows
unfolding membership_update
read_membership now slot update_id membership rows = do
  chat ← membership.chat
  from ← membership.sender
  new_member ← membership.new_member
  sender ← from
  chat_id ← chat.id
  date ← membership.date
  some (
      membership_update now slot update_id sender chat_id date chat (or_other chat.kind) new_member
        rows)

-- `_process_membership_update`
unfoldable pub process_membership_update : ℕ → String → ℕ → Membership → Rows → Rows
unfolding read_membership
process_membership_update now slot update_id membership rows =
    or_same rows (read_membership now slot update_id membership rows)

unfoldable pub with_membership : ℕ → String → ℕ → Option Membership → Rows → Rows
unfolding process_membership_update
with_membership now slot update_id none rows = rows
with_membership now slot update_id (some membership) rows =
    process_membership_update now slot update_id membership rows

module _ (casefold : Text → Text) (digest : Text → String) where
  unfoldable pub code_verdict : Text → ChatType → String → SlotRecord → SessionRecord → Verdict
  code_verdict text kind slot r b =
      let extracted = extract_code casefold text kind (codes r.username) in
      elim extracted.0 [
        | none ↦
            if not (is_group_start_fallback casefold text kind (codes r.username))
            then ignored
            else if not (is_bound r.private_status)
            then refused "binding.group_start_before_private_rejected"
            else accepted
        | some code ↦
            if is_wrong_slot slot extracted.1
            then refused "binding.private_wrong_slot_rejected"
            else if not (str_eq (digest code) b.code_digest)
            then refused "binding.code_rejected"
            else accepted
      ]

  unfoldable pub message_work :
      ℕ → String → ℕ → ℤ → ℤ → ℕ → Chat → ChatType → Text → SlotRecord → Rows → Rows
  unfolding code_verdict by_chat audit
  message_work now slot update_id sender chat_id date chat kind text r rows =
      if not (date == 0) && is_old date rows.binding
      then audit now (some slot) "binding.old_update_ignored" rows
      else elim (code_verdict text kind slot r rows.binding) [
        | ignored ↦ rows
        | refused event ↦ audit now (some slot) event rows
        | accepted ↦ by_chat now slot update_id sender chat_id chat kind r rows
      ]

  -- The message of `_process_update` after the fields are read.
  unfoldable pub message_update : ℕ → String → ℕ → ℤ → ℤ → ℕ → Chat → ChatType → Text → Rows → Rows
  unfolding open_update message_work
  message_update now slot update_id sender chat_id date chat kind text rows =
      open_update now slot update_id "binding.stale_message_update_ignored"
        (message_work now slot update_id sender chat_id date chat kind text) rows

  unfoldable pub read_message : ℕ → String → ℕ → Message → Rows → Option Rows
  unfolding message_update
  read_message now slot update_id message rows = do
    text ← message.text
    chat ← message.chat
    from ← message.sender
    sender ← from
    chat_id ← chat.id
    kind ← chat.kind
    date ← message.date
    some (message_update now slot update_id sender chat_id date chat kind text rows)

  unfoldable pub process_message : ℕ → String → ℕ → Message → Rows → Rows
  unfolding read_message
  process_message now slot update_id message rows =
      or_same rows (read_message now slot update_id message rows)

  unfoldable pub with_message : ℕ → String → ℕ → Option Message → Rows → Rows
  unfolding process_message
  with_message now slot update_id none rows = rows
  with_message now slot update_id (some message) rows =
      process_message now slot update_id message rows

  -- `_process_update`
  unfoldable pub process_update : ℕ → ℕ → String → Update → Rows → Rows
  unfolding with_membership with_message
  process_update now later slot update rows =
      with_message later slot update.update_id update.message
        (with_membership now slot update.update_id update.membership rows)
