-- ===== src/Telegram/Remembered.antt =====
-- The work on an update in control_plane/telegram/binding_service.py keeps the number of the last
-- update in the row of the slot.
use ai_agent_desktop.Base.{
  ℕ, ◌+◌, String, ◌&&◌, Option, none, some, ◌≡◌, inl, inr, refl, arith, Bool-cases, Option-cases,
}
use ai_agent_desktop.Base.Dict.{lookup, lookup-insert_self}
use ai_agent_desktop.Base.Int.{ℤ, opt_int_eq}
use ai_agent_desktop.Telegram.Rows.{
  ChatType, private_chat, group, supergroup, channel, other, bound, rejected, SlotRecord, Rows,
  audit, is_bound, recalculate,
}
use ai_agent_desktop.Telegram.Command.{is_group_chat}
use ai_agent_desktop.Telegram.Payload.{Chat, MemberStatus, NewMember}
use ai_agent_desktop.Telegram.Applied.{
  put_slot, finish_update, is_other_sender, private_message, in_group, group_message, by_chat,
  is_present, is_gone, by_status,
}
use ai_agent_desktop.Telegram.Updates.{membership_refusal, membership_work}

abbrev pub last_of : Option SlotRecord → Option (Option ℕ)
last_of none = none
last_of (some r) = some r.last_update_id

-- The row of the slot remembers the same last update.
abbrev pub Keeps : String → SlotRecord → Rows → Type 0
Keeps slot r rows = last_of (lookup slot rows.slots) ≡ some r.last_update_id

slots-recalculate : (now : ℕ) (rows : Rows) → (recalculate now rows).slots ≡ rows.slots
unfolding recalculate audit
slots-recalculate now rows = ground arith

slots-finish_update : (now : ℕ) (rows : Rows) → (finish_update now rows).slots ≡ rows.slots
unfolding finish_update
slots-finish_update now rows = slots-recalculate now (record rows {
  binding = record rows.binding { updated_at = now; revision = rows.binding.revision + 1 };
})

noted-Keeps :
    (now : ℕ) (event slot : String) (r : SlotRecord) (rows : Rows)
    → Keeps slot r (finish_update now (audit now (some slot) event (put_slot slot r rows)))
unfolding audit put_slot
noted-Keeps now event slot r rows =
    rw (slots-finish_update now (audit now (some slot) event (put_slot slot r rows)))
      (rw lookup-insert_self refl)

put-Keeps : (slot : String) (r : SlotRecord) (rows : Rows) → Keeps slot r (put_slot slot r rows)
unfolding put_slot
put-Keeps slot r rows = rw lookup-insert_self refl

pub found-Keeps :
    (slot : String) (r : SlotRecord) (rows : Rows)
    → lookup slot rows.slots ≡ some r
    → Keeps slot r rows
found-Keeps slot r rows found = rw found refl

private_message-Keeps :
    (now : ℕ) (slot : String) (update_id : ℕ) (sender : ℤ) (r : SlotRecord) (rows : Rows)
    → lookup slot rows.slots ≡ some r
    → Keeps slot r (private_message now slot update_id sender r rows)
unfolding private_message audit
private_message-Keeps now slot update_id sender r rows found =
    elim (Bool-cases (is_bound r.private_status)) [
      | inl e ↦ rw (private_message, e) (found-Keeps slot r rows found)
      | inr e ↦ elim (Bool-cases (is_other_sender rows.binding.operator_user_id sender)) [
        | inl f ↦
            rw (private_message, e, f)
              (put-Keeps slot (record r { private_status = rejected }) rows)
        | inr f ↦
            rw (private_message, e, f)
              (noted-Keeps now "binding.private_bound" slot
                (record r {
                  private_status = bound;
                  private_user_id = some sender;
                  private_update_id = some update_id;
                })
                (record rows { binding = record rows.binding { operator_user_id = some sender } }))
      ]
    ]

group_message-Keeps :
    (now : ℕ) (slot : String) (update_id : ℕ) (sender chat_id : ℤ) (chat : Chat) (kind : ChatType)
    (r : SlotRecord) (rows : Rows)
    → lookup slot rows.slots ≡ some r
    → Keeps slot r (group_message now slot update_id sender chat_id chat kind r rows)
unfolding group_message audit in_group
group_message-Keeps now slot update_id sender chat_id chat kind r rows found =
    elim (Bool-cases (is_bound r.group_status)) [
      | inl e ↦ rw (group_message, e) (found-Keeps slot r rows found)
      | inr e ↦ elim (Bool-cases (opt_int_eq rows.binding.operator_user_id (some sender))) [
        | inl f ↦
            rw (group_message, e, f)
              (noted-Keeps now "binding.group_bound" slot (in_group update_id chat_id chat kind r)
                rows)
        | inr f ↦
            rw (group_message, e, f) (put-Keeps slot (record r { group_status = rejected }) rows)
      ]
    ]

pub by_chat-Keeps :
    (now : ℕ) (slot : String) (update_id : ℕ) (sender chat_id : ℤ) (chat : Chat) (kind : ChatType)
    (r : SlotRecord) (rows : Rows)
    → lookup slot rows.slots ≡ some r
    → Keeps slot r (by_chat now slot update_id sender chat_id chat kind r rows)
unfolding by_chat audit
by_chat-Keeps now slot update_id sender chat_id chat private_chat r rows found =
    private_message-Keeps now slot update_id sender r rows found
by_chat-Keeps now slot update_id sender chat_id chat group r rows found =
    group_message-Keeps now slot update_id sender chat_id chat group r rows found
by_chat-Keeps now slot update_id sender chat_id chat supergroup r rows found =
    group_message-Keeps now slot update_id sender chat_id chat supergroup r rows found
by_chat-Keeps now slot update_id sender chat_id chat channel r rows found =
    found-Keeps slot r rows found
by_chat-Keeps now slot update_id sender chat_id chat other r rows found =
    found-Keeps slot r rows found

by_status-Keeps :
    (now : ℕ) (slot : String) (update_id : ℕ) (chat_id : ℤ) (chat : Chat) (kind : ChatType)
    (status : MemberStatus) (r : SlotRecord) (rows : Rows)
    → lookup slot rows.slots ≡ some r
    → Keeps slot r (by_status now slot update_id chat_id chat kind status r rows)
unfolding by_status audit in_group
by_status-Keeps now slot update_id chat_id chat kind status r rows found =
    elim (Bool-cases (is_group_chat kind)) [
      | inr e ↦ rw (by_status, e) (found-Keeps slot r rows found)
      | inl e ↦ elim (Bool-cases (is_gone status)) [
        | inl g ↦
            rw (by_status, e, g)
              (noted-Keeps now "binding.group_membership_left" slot
                (record r { group_status = rejected }) rows)
        | inr g ↦ elim (Bool-cases (is_present status)) [
          | inr p ↦ rw (by_status, e, g, p) (found-Keeps slot r rows found)
          | inl p ↦
              elim (Bool-cases
                (is_bound r.group_status && opt_int_eq r.group_chat_id (some chat_id))) [
                  | inl q ↦ rw (by_status, e, g, p, q) (found-Keeps slot r rows found)
                  | inr q ↦
                      rw (by_status, e, g, p, q)
                        (noted-Keeps now "binding.group_membership_bound" slot
                          (in_group update_id chat_id chat kind r) rows)
                ]
        ]
      ]
    ]

pub membership_work-Keeps :
    (now : ℕ) (slot : String) (update_id : ℕ) (sender chat_id : ℤ) (date : ℕ) (chat : Chat)
    (kind : ChatType) (new_member : NewMember) (r : SlotRecord) (rows : Rows)
    → lookup slot rows.slots ≡ some r
    → Keeps slot r
        (membership_work now slot update_id sender chat_id date chat kind new_member r rows)
unfolding membership_work audit
membership_work-Keeps now slot update_id sender chat_id date chat kind new_member r rows found =
    elim (Option-cases (membership_refusal date new_member.user sender kind r rows.binding)) [
      | inl e ↦
          rw (membership_work, e)
            (by_status-Keeps now slot update_id chat_id chat kind new_member.status r rows found)
      | inr (event, e) ↦ rw (membership_work, e) (found-Keeps slot r rows found)
    ]
