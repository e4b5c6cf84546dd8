-- ===== src/Telegram/Idempotent.antt =====
-- Processing an update of control_plane/telegram/binding_service.py twice is processing it once.
use ai_agent_desktop.Base.{
  ℕ, String, not, ◌⊎◌, arith, ◌&&◌, Option, none, some, ◌≡◌, inl, inr, refl, sym, ap, subst, ◌∙◌,
  Bool-cases, Option-cases, ◌==◌,
}
use ai_agent_desktop.Base.Dict.{lookup}
use ai_agent_desktop.Base.Int.{ℤ}
use ai_agent_desktop.Telegram.Rows.{Text, ChatType, SlotRecord, Rows, audit}
use ai_agent_desktop.Telegram.Payload.{Chat, Message, Update}
use ai_agent_desktop.Telegram.Applied.{by_chat}
use ai_agent_desktop.Telegram.Updates.{
  is_old, with_membership, Verdict, ignored, refused, accepted, code_verdict, message_work,
  message_update, read_message, process_message, with_message, process_update,
}
use ai_agent_desktop.Telegram.Remembered.{Keeps, found-Keeps, by_chat-Keeps}
use ai_agent_desktop.Telegram.Replayed.{
  Expires, Unmoved-refl, IsOnce, Unmoved, idle-IsOnce, open_update-IsOnce, with_membership-IsOnce,
}

Unmoved-trans : (a b c : Rows) → Unmoved a b → Unmoved b c → Unmoved a c
Unmoved-trans a b c h k = record {
  slots = k.slots ∙ h.slots;
  groups = k.groups ∙ h.groups;
  binding = elim k.binding [
    | inl e ↦ subst (λ x. (x ≡ a.binding) ⊎ Expires a.binding x) (sym e) h.binding
    | inr (live, e) ↦ elim h.binding [
      | inl f ↦ inr (subst (λ x. Expires x c.binding) f (live, e))
      | inr (live', f) ↦ absurd (ground (arith, live, ap (λ x. x.state) f))
    ]
  ];
}

-- Two parts one after the other, and then again.
twice :
    (slot : String) (update_id : ℕ) (first second : ℕ → Rows → Rows)
    → IsOnce slot update_id first
    → IsOnce slot update_id second
    → (n1 n2 n3 n4 : ℕ) (rows : Rows)
    → Unmoved (second n2 (first n1 rows)) (second n4 (first n3 (second n2 (first n1 rows))))
twice slot update_id first second once once' n1 n2 n3 n4 rows =
    let a = first n1 rows in
    let b = second n2 a in
    let c = first n3 b in
    let d = second n4 c in
    let again : Unmoved b c = elim once.0 [
      | inl idle ↦ subst (λ x. Unmoved b x) (sym (idle n3 b)) (Unmoved-refl b)
      | inr seen ↦ (once.1 n3 b ((once'.1 n2 a (seen n1 rows)).1)).0
    ] in
    let after : Unmoved c d = elim once'.0 [
      | inl idle ↦ subst (λ x. Unmoved c x) (sym (idle n4 c)) (Unmoved-refl c)
      | inr seen ↦ (once'.1 n4 c ((once.1 n3 b (seen n2 a)).1)).0
    ] in
    Unmoved-trans b c d again after

module _ (casefold : Text → Text) (digest : Text → String) where
  message_work-Keeps :
      (now : ℕ) (slot : String) (update_id : ℕ) (sender chat_id : ℤ) (date : ℕ) (chat : Chat)
      (kind : ChatType) (text : Text) (r : SlotRecord) (rows : Rows)
      → lookup slot rows.slots ≡ some r
      → Keeps slot r (
          message_work casefold digest now slot update_id sender chat_id date chat kind text r rows)
  unfolding message_work audit
  message_work-Keeps now slot update_id sender chat_id date chat kind text r rows found =
      elim (Bool-cases (not (date == 0) && is_old date rows.binding)) [
        | inl e ↦ rw (message_work, e) (found-Keeps slot r rows found)
        | inr e ↦
            rw (message_work, e)
              (by_verdict (code_verdict casefold digest text kind slot r rows.binding))
      ]
    where
      by_verdict :
          (verdict : Verdict)
          → Keeps slot r (elim verdict [
            | ignored ↦ rows
            | refused event ↦ audit now (some slot) event rows
            | accepted ↦ by_chat now slot update_id sender chat_id chat kind r rows
          ])
      by_verdict ignored = found-Keeps slot r rows found
      by_verdict (refused event) = found-Keeps slot r rows found
      by_verdict accepted = by_chat-Keeps now slot update_id sender chat_id chat kind r rows found

  process_message-IsOnce :
      (slot : String) (update_id : ℕ) (m : Message)
      → IsOnce slot update_id
          (λ now rows. process_message casefold digest now slot update_id m rows)
  unfolding process_message read_message message_update
  process_message-IsOnce slot update_id m = elim (Option-cases m.text) [
    | inl a ↦ idle-IsOnce slot update_id _ (λ now rows. rw a refl)
    | inr (text, a) ↦ elim (Option-cases m.chat) [
      | inl b ↦ idle-IsOnce slot update_id _ (λ now rows. rw (a, b) refl)
      | inr (chat, b) ↦ elim (Option-cases m.sender) [
        | inl c ↦ idle-IsOnce slot update_id _ (λ now rows. rw (a, b, c) refl)
        | inr (from, c) ↦ elim (Option-cases from) [
          | inl d ↦ idle-IsOnce slot update_id _ (λ now rows. rw (a, b, c, d) refl)
          | inr (sender, d) ↦ elim (Option-cases chat.id) [
            | inl e ↦ idle-IsOnce slot update_id _ (λ now rows. rw (a, b, c, d, e) refl)
            | inr (chat_id, e) ↦ elim (Option-cases chat.kind) [
              | inl f ↦ idle-IsOnce slot update_id _ (λ now rows. rw (a, b, c, d, e, f) refl)
              | inr (kind, f) ↦ elim (Option-cases m.date) [
                | inl g ↦ idle-IsOnce slot update_id _ (λ now rows. rw (a, b, c, d, e, f, g) refl)
                | inr (date, g) ↦
                    rw (a, b, c, d, e, f, g)
                      (open_update-IsOnce slot update_id "binding.stale_message_update_ignored"
                        (λ now.
                          message_work casefold digest now slot update_id sender chat_id date chat
                            kind text)
                        (λ now.
                          message_work-Keeps now slot update_id sender chat_id date chat kind text))
              ]
            ]
          ]
        ]
      ]
    ]
  ]

  with_message-IsOnce :
      (slot : String) (update_id : ℕ) (message : Option Message)
      → IsOnce slot update_id
          (λ now rows. with_message casefold digest now slot update_id message rows)
  unfolding with_message
  with_message-IsOnce slot update_id none = idle-IsOnce slot update_id _ (λ now rows. refl)
  with_message-IsOnce slot update_id (some m) = process_message-IsOnce slot update_id m

  -- An update that is processed a second time, at any later times, changes no slot and no group
  -- binding, and the session stays as it is or only expires: it was neither completed nor canceled
  -- nor expired, its state becomes expired, its revision grows by one, the time of its last change
  -- moves, and it keeps every other field.
  pub process_update_again :
      (now later again after : ℕ) (slot : String) (update : Update) (rows : Rows)
      → Unmoved (process_update casefold digest now later slot update rows) (
          process_update casefold digest again after slot update
            (process_update casefold digest now later slot update rows))
  unfolding process_update
  process_update_again now later again after slot update rows =
      twice slot update.update_id
        (λ n r. with_membership n slot update.update_id update.membership r)
        (λ n r. with_message casefold digest n slot update.update_id update.message r)
        (with_membership-IsOnce slot update.update_id update.membership)
        (with_message-IsOnce slot update.update_id update.message) now later again after rows
