-- ===== src/Telegram/Refinement.antt =====
-- Whole updates of control_plane/telegram/binding_service.py against the steps of Policy.
use ai_agent_desktop.Base.{
  ℕ, String, true, not, ◌&&◌, Option, none, some, ◌≡◌, inl, inr, refl, arith, Bool-cases,
  Option-cases, ◌==◌,
}
use ai_agent_desktop.Base.Dict.{lookup}
use ai_agent_desktop.Base.Int.{ℤ, opt_int_eq}
use ai_agent_desktop.Telegram.Rows.{Text, ChatType, SlotRecord, SessionRecord, Rows, audit}
use ai_agent_desktop.Telegram.Payload.{Chat, Message, NewMember, Membership, Update}
use ai_agent_desktop.Telegram.Applied.{by_chat}
use ai_agent_desktop.Telegram.Updates.{
  membership_refusal, membership_work, membership_update, is_old, or_other, read_membership,
  process_membership_update, with_membership, Verdict, ignored, refused, accepted, code_verdict,
  message_work, message_update, read_message, process_message, with_message, process_update,
}
use ai_agent_desktop.Telegram.Policy.{View, view, Simulated}
use ai_agent_desktop.Telegram.Simulation.{
  view-audit, by_chat-Simulated, by_status-Simulated, open_update-Simulated,
}

-- A membership update that passes the checks is the operator's.
membership_refusal_lem :
    (date : ℕ) (user : Option ℤ) (sender : ℤ) (kind : ChatType) (r : SlotRecord) (b : SessionRecord)
    → membership_refusal date user sender kind r b ≡ none
    → opt_int_eq b.operator_user_id (some sender) ≡ true
unfolding membership_refusal
membership_refusal_lem date user sender kind r b h =
    elim (Bool-cases (opt_int_eq b.operator_user_id (some sender))) [
      | inl e ↦ e
      | inr e ↦ ground (arith, e, h)
    ]

membership_work-Simulated :
    (now : ℕ) (slot : String) (update_id : ℕ) (sender chat_id : ℤ) (date : ℕ) (chat : Chat)
    (kind : ChatType) (new_member : NewMember) (r : SlotRecord) (rows : Rows)
    → lookup slot rows.slots ≡ some r
    → Simulated sender
        (view rows)
        (view (membership_work now slot update_id sender chat_id date chat kind new_member r rows))
unfolding membership_work
membership_work-Simulated now slot update_id sender chat_id date chat kind new_member r rows found =
    elim (Option-cases (membership_refusal date new_member.user sender kind r rows.binding)) [
      | inl e ↦
          rw (membership_work, e)
            (by_status-Simulated now slot update_id sender chat_id chat kind new_member.status r
              rows found (membership_refusal_lem date new_member.user sender kind r rows.binding e))
      | inr (event, e) ↦ rw (membership_work, e) (inl (view-audit now _ _ rows))
    ]

-- Nobody acts, or the one who is named.
abbrev pub ByActor : Option ℤ → View → View → Type 0
ByActor none v v' = v' ≡ v
ByActor (some actor) v v' = Simulated actor v v'

abbrev pub actor_of : Option (Option ℤ) → Option ℤ
actor_of none = none
actor_of (some sender) = sender

abbrev pub member_actor : Option Membership → Option ℤ
member_actor none = none
member_actor (some membership) = actor_of membership.sender

abbrev pub message_actor : Option Message → Option ℤ
message_actor none = none
message_actor (some message) = actor_of message.sender

nobody : (actor : Option ℤ) (v : View) → ByActor actor v v
nobody none v = refl
nobody (some a) v = inl refl

process_membership_update-ByActor :
    (now : ℕ) (slot : String) (update_id : ℕ) (chat : Option Chat) (sender : Option (Option ℤ))
    (new_member : Option NewMember) (date : Option ℕ) (rows : Rows)
    → ByActor (actor_of sender) (view rows) (
        view (
          process_membership_update now slot update_id
            (record { chat = chat; sender = sender; new_member = new_member; date = date })
            rows))
unfolding process_membership_update read_membership membership_update
process_membership_update-ByActor now slot update_id none sender new_member date rows =
    nobody (actor_of sender) (view rows)
process_membership_update-ByActor now slot update_id (some chat) none new_member date rows = refl
process_membership_update-ByActor now slot update_id (some chat) (some from) none date rows =
    nobody from (view rows)
process_membership_update-ByActor now slot update_id (some chat) (some none) (some m) date rows =
    refl
process_membership_update-ByActor now slot update_id (some chat) (some (some sender)) (some m) date
      rows =
    elim (Option-cases chat.id) [
      | inl e ↦ rw e (inl refl)
      | inr (chat_id, e) ↦ elim (Option-cases date) [
        | inl d ↦ rw (e, d) (inl refl)
        | inr (day, d) ↦
            rw (e, d)
              (open_update-Simulated now slot update_id "binding.stale_membership_update_ignored"
                (membership_work now slot update_id sender chat_id day chat (or_other chat.kind) m)
                sender
                (membership_work-Simulated now slot update_id sender chat_id day chat
                  (or_other chat.kind) m)
                rows)
      ]
    ]

with_membership-ByActor :
    (now : ℕ) (slot : String) (update_id : ℕ) (membership : Option Membership) (rows : Rows)
    → ByActor
        (member_actor membership)
        (view rows)
        (view (with_membership now slot update_id membership rows))
unfolding with_membership
with_membership-ByActor now slot update_id none rows = refl
with_membership-ByActor now slot update_id (some m) rows =
    process_membership_update-ByActor now slot update_id m.chat m.sender m.new_member m.date rows

module _ (casefold : Text → Text) (digest : Text → String) where
  message_work-Simulated :
      (now : ℕ) (slot : String) (update_id : ℕ) (sender chat_id : ℤ) (date : ℕ) (chat : Chat)
      (kind : ChatType) (text : Text) (r : SlotRecord) (rows : Rows)
      → lookup slot rows.slots ≡ some r
      → Simulated sender (view rows) (
          view (
            message_work casefold digest now slot update_id sender chat_id date chat kind text r
              rows))
  unfolding message_work
  message_work-Simulated now slot update_id sender chat_id date chat kind text r rows found =
      elim (Bool-cases (not (date == 0) && is_old date rows.binding)) [
        | inl e ↦ rw (message_work, e) (inl (view-audit now _ _ rows))
        | inr e ↦
            rw (message_work, e)
              (by_verdict (code_verdict casefold digest text kind slot r rows.binding))
      ]
    where
      by_verdict :
          (verdict : Verdict)
          → Simulated sender (view rows) (
              view (elim verdict [
                | ignored ↦ rows
                | refused event ↦ audit now (some slot) event rows
                | accepted ↦ by_chat now slot update_id sender chat_id chat kind r rows
              ]))
      by_verdict ignored = inl refl
      by_verdict (refused event) = inl (view-audit now _ _ rows)
      by_verdict accepted =
          by_chat-Simulated now slot update_id sender chat_id chat kind r rows found

  process_message-ByActor :
      (now : ℕ) (slot : String) (update_id : ℕ) (text : Option Text) (chat : Option Chat)
      (sender : Option (Option ℤ)) (date : Option ℕ) (rows : Rows)
      → ByActor (actor_of sender) (view rows) (
          view (
            process_message casefold digest now slot update_id
              (record { text = text; chat = chat; sender = sender; date = date })
              rows))
  unfolding process_message read_message message_update
  process_message-ByActor now slot update_id none chat sender date rows =
      nobody (actor_of sender) (view rows)
  process_message-ByActor now slot update_id (some text) none sender date rows =
      nobody (actor_of sender) (view rows)
  process_message-ByActor now slot update_id (some text) (some chat) none date rows = refl
  process_message-ByActor now slot update_id (some text) (some chat) (some none) date rows = refl
  process_message-ByActor now slot update_id (some text) (some chat) (some (some sender)) date
        rows =
      elim (Option-cases chat.id) [
        | inl e ↦ rw e (inl refl)
        | inr (chat_id, e) ↦ elim (Option-cases chat.kind) [
          | inl k ↦ rw (e, k) (inl refl)
          | inr (kind, k) ↦ elim (Option-cases date) [
            | inl d ↦ rw (e, k, d) (inl refl)
            | inr (day, d) ↦
                rw (e, k, d)
                  (open_update-Simulated now slot update_id "binding.stale_message_update_ignored"
                    (message_work casefold digest now slot update_id sender chat_id day chat kind
                      text)
                    sender
                    (message_work-Simulated now slot update_id sender chat_id day chat kind text)
                    rows)
          ]
        ]
      ]

  with_message-ByActor :
      (now : ℕ) (slot : String) (update_id : ℕ) (message : Option Message) (rows : Rows)
      → ByActor
          (message_actor message)
          (view rows)
          (view (with_message casefold digest now slot update_id message rows))
  unfolding with_message
  with_message-ByActor now slot update_id none rows = refl
  with_message-ByActor now slot update_id (some m) rows =
      process_message-ByActor now slot update_id m.text m.chat m.sender m.date rows

  -- An update makes at most two steps of the abstract session, for any rows and any update: at most
  -- one by whoever changed the bot's membership, then at most one by whoever sent the message. A
  -- step of the abstract session binds a private chat of the first such person, who becomes the
  -- operator, or is the operator's.
  pub process_update-refines :
      (now later : ℕ) (slot : String) (update : Update) (rows : Rows)
      → (v : View) × ByActor (member_actor update.membership) (view rows) v
        × ByActor
            (message_actor update.message)
            v
            (view (process_update casefold digest now later slot update rows))
  unfolding process_update
  process_update-refines now later slot update rows =
      let joined = with_membership now slot update.update_id update.membership rows in
      (
        view joined,
        with_membership-ByActor now slot update.update_id update.membership rows,
        with_message-ByActor later slot update.update_id update.message joined,
      )
