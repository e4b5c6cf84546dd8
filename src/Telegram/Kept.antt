-- ===== src/Telegram/Kept.antt =====
-- A whole update of control_plane/telegram/binding_service.py keeps the rows of a session sound.
use ai_agent_desktop.Base.{
  ℕ, String, not, ◌&&◌, Option, none, some, ◌≡◌, inl, inr, Bool-cases, Option-cases, ◌==◌,
}
use ai_agent_desktop.Base.Dict.{lookup}
use ai_agent_desktop.Base.Int.{ℤ}
use ai_agent_desktop.Telegram.Rows.{Text, ChatType, SlotRecord, Rows, audit}
use ai_agent_desktop.Telegram.Payload.{Chat, Message, NewMember, Membership, Update}
use ai_agent_desktop.Telegram.Applied.{by_chat}
use ai_agent_desktop.Telegram.Updates.{
  is_old, membership_refusal, membership_work, membership_update, or_other, read_membership,
  process_membership_update, with_membership, Verdict, ignored, refused, accepted, code_verdict,
  message_work, message_update, read_message, process_message, with_message, process_update,
}
use ai_agent_desktop.Telegram.Sound.{IsSound}
use ai_agent_desktop.Telegram.Invariant.{
  IsOpen, IsOpen-IsSound, by_chat-IsSound, by_status-IsSound, open_update-IsSound,
}

membership_work-IsSound :
    (now : ℕ) (slot : String) (update_id : ℕ) (sender chat_id : ℤ) (date : ℕ) (chat : Chat)
    (kind : ChatType) (new_member : NewMember) (r : SlotRecord) (rows : Rows)
    → lookup slot rows.slots ≡ some r
    → IsOpen rows
    → IsSound (membership_work now slot update_id sender chat_id date chat kind new_member r rows)
unfolding membership_work audit
membership_work-IsSound now slot update_id sender chat_id date chat kind new_member r rows found h =
    elim (Option-cases (membership_refusal date new_member.user sender kind r rows.binding)) [
      | inl e ↦
          rw (membership_work, e)
            (by_status-IsSound now slot update_id chat_id chat kind new_member.status r rows found
              h)
      | inr (event, e) ↦ rw (membership_work, e) (IsOpen-IsSound _ h)
    ]

-- What holds of the rows and of every update whose fields can be read holds after it.
pub process_membership_update_lem :
    (P : Rows → Type 0) (now : ℕ) (slot : String) (update_id : ℕ) (m : Membership) (rows : Rows)
    → P rows
    → ((sender chat_id : ℤ) (date : ℕ) (chat : Chat) (kind : ChatType) (new_member : NewMember)
        → P (membership_update now slot update_id sender chat_id date chat kind new_member rows))
    → P (process_membership_update now slot update_id m rows)
unfolding process_membership_update read_membership
process_membership_update_lem P now slot update_id m rows same worked = elim (Option-cases m.chat) [
  | inl a ↦ rw a same
  | inr (chat, a) ↦ elim (Option-cases m.sender) [
    | inl b ↦ rw (a, b) same
    | inr (from, b) ↦ elim (Option-cases m.new_member) [
      | inl c ↦ rw (a, b, c) same
      | inr (new_member, c) ↦ elim (Option-cases from) [
        | inl d ↦ rw (a, b, c, d) same
        | inr (sender, d) ↦ elim (Option-cases chat.id) [
          | inl e ↦ rw (a, b, c, d, e) same
          | inr (chat_id, e) ↦ elim (Option-cases m.date) [
            | inl f ↦ rw (a, b, c, d, e, f) same
            | inr (date, f) ↦
                rw (a, b, c, d, e, f)
                  (worked sender chat_id date chat (or_other chat.kind) new_member)
          ]
        ]
      ]
    ]
  ]
]

with_membership-IsSound :
    (now : ℕ) (slot : String) (update_id : ℕ) (membership : Option Membership) (rows : Rows)
    → IsSound rows
    → IsSound (with_membership now slot update_id membership rows)
unfolding with_membership membership_update
with_membership-IsSound now slot update_id none rows h = h
with_membership-IsSound now slot update_id (some m) rows h =
    process_membership_update_lem IsSound now slot update_id m rows h
      (λ sender chat_id date chat kind new_member.
        open_update-IsSound now slot update_id "binding.stale_membership_update_ignored"
          (membership_work now slot update_id sender chat_id date chat kind new_member)
          (membership_work-IsSound now slot update_id sender chat_id date chat kind new_member) rows
          h)

module _ (casefold : Text → Text) (digest : Text → String) where
  message_work-IsSound :
      (now : ℕ) (slot : String) (update_id : ℕ) (sender chat_id : ℤ) (date : ℕ) (chat : Chat)
      (kind : ChatType) (text : Text) (r : SlotRecord) (rows : Rows)
      → lookup slot rows.slots ≡ some r
      → IsOpen rows
      → IsSound (
          message_work casefold digest now slot update_id sender chat_id date chat kind text r rows)
  unfolding message_work audit
  message_work-IsSound now slot update_id sender chat_id date chat kind text r rows found h =
      elim (Bool-cases (not (date == 0) && is_old date rows.binding)) [
        | inl e ↦ rw (message_work, e) (IsOpen-IsSound _ h)
        | inr e ↦
            rw (message_work, e)
              (by_verdict (code_verdict casefold digest text kind slot r rows.binding))
      ]
    where
      by_verdict :
          (verdict : Verdict)
          → IsSound (elim verdict [
            | ignored ↦ rows
            | refused event ↦ audit now (some slot) event rows
            | accepted ↦ by_chat now slot update_id sender chat_id chat kind r rows
          ])
      by_verdict ignored = IsOpen-IsSound _ h
      by_verdict (refused event) = IsOpen-IsSound _ h
      by_verdict accepted =
          by_chat-IsSound now slot update_id sender chat_id chat kind r rows found h

  pub process_message_lem :
      (P : Rows → Type 0) (now : ℕ) (slot : String) (update_id : ℕ) (m : Message) (rows : Rows)
      → P rows
      → ((sender chat_id : ℤ) (date : ℕ) (chat : Chat) (kind : ChatType) (text : Text)
          → P (
              message_update casefold digest now slot update_id sender chat_id date chat kind text
                rows))
      → P (process_message casefold digest now slot update_id m rows)
  unfolding process_message read_message
  process_message_lem P now slot update_id m rows same worked = elim (Option-cases m.text) [
    | inl a ↦ rw a same
    | inr (text, a) ↦ elim (Option-cases m.chat) [
      | inl b ↦ rw (a, b) same
      | inr (chat, b) ↦ elim (Option-cases m.sender) [
        | inl c ↦ rw (a, b, c) same
        | inr (from, c) ↦ elim (Option-cases from) [
          | inl d ↦ rw (a, b, c, d) same
          | inr (sender, d) ↦ elim (Option-cases chat.id) [
            | inl e ↦ rw (a, b, c, d, e) same
            | inr (chat_id, e) ↦ elim (Option-cases chat.kind) [
              | inl f ↦ rw (a, b, c, d, e, f) same
              | inr (kind, f) ↦ elim (Option-cases m.date) [
                | inl g ↦ rw (a, b, c, d, e, f, g) same
                | inr (date, g) ↦
                    rw (a, b, c, d, e, f, g) (worked sender chat_id date chat kind text)
              ]
            ]
          ]
        ]
      ]
    ]
  ]

  with_message-IsSound :
      (now : ℕ) (slot : String) (update_id : ℕ) (message : Option Message) (rows : Rows)
      → IsSound rows
      → IsSound (with_message casefold digest now slot update_id message rows)
  unfolding with_message message_update
  with_message-IsSound now slot update_id none rows h = h
  with_message-IsSound now slot update_id (some m) rows h =
      process_message_lem IsSound now slot update_id m rows h (λ sender chat_id date chat kind text.
        open_update-IsSound now slot update_id "binding.stale_message_update_ignored"
          (message_work casefold digest now slot update_id sender chat_id date chat kind text)
          (message_work-IsSound now slot update_id sender chat_id date chat kind text) rows h)

  pub process_update-IsSound :
      (now later : ℕ) (slot : String) (update : Update) (rows : Rows)
      → IsSound rows
      → IsSound (process_update casefold digest now later slot update rows)
  unfolding process_update
  process_update-IsSound now later slot update rows h =
      with_message-IsSound later slot update.update_id update.message _
        (with_membership-IsSound now slot update.update_id update.membership rows h)
