-- ===== src/Telegram/Applied.antt =====
-- What an update that passed the checks of control_plane/telegram/binding_service.py does to the
-- rows of its session, by the type of the chat or by the new status of the bot.
use ai_agent_desktop.Base.{
  ℕ, ◌+◌, String, Bool, true, false, not, ◌&&◌, Option, none, some, if◌then◌else◌,
}
use ai_agent_desktop.Base.Dict.{insert}
use ai_agent_desktop.Base.Int.{ℤ, int_eq, opt_int_eq}
use ai_agent_desktop.Telegram.Rows.{
  bound, rejected, is_bound, ChatType, channel, SlotRecord, Rows, audit, recalculate,
}
use ai_agent_desktop.Telegram.Command.{is_group_chat, is_private_chat}
use ai_agent_desktop.Telegram.Payload.{
  Chat, MemberStatus, cut_title, member, administrator, creator, left, kicked,
}

unfoldable pub put_slot : String → SlotRecord → Rows → Rows
put_slot slot r rows = record rows { slots = insert slot r rows.slots }

-- What follows a change: the revision, then `_recalculate`.
unfoldable pub finish_update : ℕ → Rows → Rows
finish_update now rows = recalculate now (record rows {
  binding = record rows.binding { updated_at = now; revision = rows.binding.revision + 1 };
})

-- An operator is known, and the sender is someone else.
abbrev pub is_other_sender : Option ℤ → ℤ → Bool
is_other_sender none sender = false
is_other_sender (some operator) sender = not (int_eq operator sender)

-- The private chat.
unfoldable pub private_message : ℕ → String → ℕ → ℤ → SlotRecord → Rows → Rows
unfolding audit put_slot finish_update
private_message now slot update_id sender r rows =
    if is_bound r.private_status
    then audit now (some slot) "binding.private_replay_ignored" rows
    else if is_other_sender rows.binding.operator_user_id sender
    then audit now (some slot) "binding.operator_hijack_rejected"
        (put_slot slot (record r { private_status = rejected }) rows)
    else finish_update now (
        audit now (some slot) "binding.private_bound" (
          put_slot slot
            (record r {
              private_status = bound;
              private_user_id = some sender;
              private_update_id = some update_id;
            })
            (record rows { binding = record rows.binding { operator_user_id = some sender } })))

-- The row of a slot whose bot is in a group.
unfoldable pub in_group : ℕ → ℤ → Chat → ChatType → SlotRecord → SlotRecord
in_group update_id chat_id chat kind r = record r {
  group_status = bound;
  group_chat_id = some chat_id;
  group_title = cut_title chat.title;
  group_type = some kind;
  group_update_id = some update_id;
}

-- A group or a supergroup.
unfoldable pub group_message : ℕ → String → ℕ → ℤ → ℤ → Chat → ChatType → SlotRecord → Rows → Rows
unfolding audit put_slot finish_update in_group
group_message now slot update_id sender chat_id chat kind r rows =
    if is_bound r.group_status
    then audit now (some slot) "binding.group_replay_ignored" rows
    else if not (opt_int_eq rows.binding.operator_user_id (some sender))
    then audit now (some slot) "binding.group_operator_rejected"
        (put_slot slot (record r { group_status = rejected }) rows)
    else finish_update now (
        audit now (some slot) "binding.group_bound"
          (put_slot slot (in_group update_id chat_id chat kind r) rows))

-- What the type of the chat makes of an accepted message.
unfoldable pub by_chat : ℕ → String → ℕ → ℤ → ℤ → Chat → ChatType → SlotRecord → Rows → Rows
unfolding private_message group_message audit
by_chat now slot update_id sender chat_id chat kind r rows =
    if is_private_chat kind
    then private_message now slot update_id sender r rows
    else if is_group_chat kind
    then group_message now slot update_id sender chat_id chat kind r rows
    else elim kind [ channel ↦ audit now (some slot) "binding.channel_rejected" rows | _ ↦ rows ]

abbrev pub is_present : MemberStatus → Bool
is_present member = true
is_present administrator = true
is_present creator = true
is_present _ = false

abbrev pub is_gone : MemberStatus → Bool
is_gone left = true
is_gone kicked = true
is_gone _ = false

-- What the new status of the bot makes of a membership update that passed the checks.
unfoldable pub by_status :
    ℕ → String → ℕ → ℤ → Chat → ChatType → MemberStatus → SlotRecord → Rows → Rows
unfolding audit put_slot finish_update in_group
by_status now slot update_id chat_id chat kind status r rows =
    if not (is_group_chat kind)
    then rows
    else if is_gone status
    then finish_update now (
        audit now (some slot) "binding.group_membership_left"
          (put_slot slot (record r { group_status = rejected }) rows))
    else if not (is_present status)
    then rows
    else if is_bound r.group_status && opt_int_eq r.group_chat_id (some chat_id)
    then audit now (some slot) "binding.group_membership_replay_ignored" rows
    else finish_update now (
        audit now (some slot) "binding.group_membership_bound"
          (put_slot slot (in_group update_id chat_id chat kind r) rows))
