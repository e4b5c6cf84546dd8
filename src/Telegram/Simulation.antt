-- ===== src/Telegram/Simulation.antt =====
-- Every update of control_plane/telegram/binding_service.py makes the steps of Policy at most.
use ai_agent_desktop.Base.{
  ℕ, String, true, false, Option, none, some, ◌≡◌, ◌⊎◌, inl, inr, refl, ap, subst, ◌∙◌, ◌&&◌, arith,
  Bool-cases, Option-cases,
}
use ai_agent_desktop.Base.Dict.{lookup, insert, insert_same, lookup-insert_self}
use ai_agent_desktop.Base.Int.{ℤ, int_eq_iff, opt_int_eq, opt_int_eq_iff}
use ai_agent_desktop.Telegram.Rows.{
  ChatType, private_chat, group, supergroup, channel, other, SlotRecord, Rows, audit, is_bound,
  expire_if_needed, recalculate,
}
use ai_agent_desktop.Telegram.Command.{is_group_chat}
use ai_agent_desktop.Telegram.Payload.{Chat, MemberStatus, touched, is_closed, is_stale}
use ai_agent_desktop.Telegram.Applied.{
  put_slot, finish_update, private_message, in_group, group_message, by_chat, by_status, is_gone,
  is_present, is_other_sender,
}
use ai_agent_desktop.Telegram.Updates.{open_update}
use ai_agent_desktop.Telegram.Policy.{
  cell_of, view, Step, bind_private, bind_group, leave_group, Simulated, cells_of-insert,
  lookup-cells_of,
}

pub view-audit :
    (now : ℕ) (slot : Option String) (event : String) (rows : Rows)
    → view (audit now slot event rows) ≡ view rows
unfolding view audit
view-audit now slot event rows = refl

view-recalculate : (now : ℕ) (rows : Rows) → view (recalculate now rows) ≡ view rows
unfolding recalculate view audit
view-recalculate now rows = ground arith

view-finish_update : (now : ℕ) (rows : Rows) → view (finish_update now rows) ≡ view rows
unfolding finish_update view
view-finish_update now rows = view-recalculate now _

view-expire :
    (now : ℕ) (rows : Rows)
    → view (record rows { binding = expire_if_needed now rows.binding }) ≡ view rows
unfolding expire_if_needed view
view-expire now rows = ground arith

view-put_slot :
    (slot : String) (r : SlotRecord) (rows : Rows)
    → view (put_slot slot r rows)
      ≡ record (view rows) { cells = insert slot (cell_of r) (view rows).cells }
unfolding put_slot view
view-put_slot slot r rows =
    ap (λ c. record { operator = rows.binding.operator_user_id; cells = c })
      (cells_of-insert slot r rows.slots)

view-found :
    (slot : String) (r : SlotRecord) (rows : Rows)
    → lookup slot rows.slots ≡ some r
    → lookup slot (view rows).cells ≡ some (cell_of r)
unfolding view
view-found slot r rows found = lookup-cells_of slot r rows.slots found

-- What is written and noted last is not seen, but for the row.
view-noted :
    (now : ℕ) (event slot : String) (r : SlotRecord) (rows : Rows)
    → view (finish_update now (audit now (some slot) event (put_slot slot r rows)))
      ≡ record (view rows) { cells = insert slot (cell_of r) (view rows).cells }
view-noted now event slot r rows = rw (view-finish_update, view-audit) (view-put_slot slot r rows)

-- A row whose bindings stay.
put_quiet :
    (slot : String) (r r' : SlotRecord) (rows : Rows)
    → lookup slot rows.slots ≡ some r
    → cell_of r' ≡ cell_of r
    → view (put_slot slot r' rows) ≡ view rows
put_quiet slot r r' rows found same =
    let unchanged = insert_same slot (cell_of r) (view rows).cells (view-found slot r rows found) in
    rw (view-put_slot slot r' rows) (rw same (rw unchanged refl))

no_other_sender :
    (operator : Option ℤ) (sender : ℤ)
    → is_other_sender operator sender ≡ false
    → (operator ≡ none) ⊎ (operator ≡ some sender)
no_other_sender none sender h = inl refl
no_other_sender (some operator) sender h = inr (ground (arith, int_eq_iff operator sender))

private-Step :
    (slot : String) (update_id : ℕ) (sender : ℤ) (r : SlotRecord) (rows : Rows)
    → lookup slot rows.slots ≡ some r
    → is_bound r.private_status ≡ false
    → is_other_sender rows.binding.operator_user_id sender ≡ false
    → Step sender (view rows) (record {
      operator = some sender;
      cells = insert slot (record (cell_of r) { user = some sender }) (view rows).cells;
    })
unfolding view
private-Step slot update_id sender r rows found e f =
    bind_private slot (cell_of r) (lookup-cells_of slot r rows.slots found) (ground (arith, e))
      (no_other_sender rows.binding.operator_user_id sender f) refl

view-operator :
    (sender : ℤ) (rows : Rows)
    → view (record rows { binding = record rows.binding { operator_user_id = some sender } })
      ≡ record (view rows) { operator = some sender }
unfolding view
view-operator sender rows = refl

group-Step :
    (slot : String) (sender chat_id : ℤ) (r : SlotRecord) (rows : Rows)
    → lookup slot rows.slots ≡ some r
    → opt_int_eq rows.binding.operator_user_id (some sender) ≡ true
    → Step sender (view rows) (record (view rows) {
      cells = insert slot (record (cell_of r) { chat = some chat_id }) (view rows).cells;
    })
unfolding view
group-Step slot sender chat_id r rows found f =
    bind_group slot (cell_of r) chat_id (lookup-cells_of slot r rows.slots found)
      (ground (arith, opt_int_eq_iff rows.binding.operator_user_id (some sender))) refl

leave-Step :
    (slot : String) (sender : ℤ) (r : SlotRecord) (rows : Rows)
    → lookup slot rows.slots ≡ some r
    → opt_int_eq rows.binding.operator_user_id (some sender) ≡ true
    → Step sender (view rows) (record (view rows) {
      cells = insert slot (record (cell_of r) { chat = none }) (view rows).cells;
    })
unfolding view
leave-Step slot sender r rows found f =
    leave_group slot (cell_of r) (lookup-cells_of slot r rows.slots found)
      (ground (arith, opt_int_eq_iff rows.binding.operator_user_id (some sender))) refl

private_message-Simulated :
    (now : ℕ) (slot : String) (update_id : ℕ) (sender : ℤ) (r : SlotRecord) (rows : Rows)
    → lookup slot rows.slots ≡ some r
    → Simulated sender (view rows) (view (private_message now slot update_id sender r rows))
unfolding private_message
private_message-Simulated now slot update_id sender r rows found =
    elim (Bool-cases (is_bound r.private_status)) [
      | inl e ↦ rw (private_message, e) (inl (view-audit now _ _ rows))
      | inr e ↦ elim (Bool-cases (is_other_sender rows.binding.operator_user_id sender)) [
        | inl f ↦
            rw (private_message, e, f)
              (inl (view-audit now _ _ _ ∙ put_quiet slot r _ rows found (ground (arith, e))))
        | inr f ↦
            rw (private_message, e, f, view-noted, view-operator)
              (inr (private-Step slot update_id sender r rows found e f))
      ]
    ]

group_message-Simulated :
    (now : ℕ) (slot : String) (update_id : ℕ) (sender chat_id : ℤ) (chat : Chat) (kind : ChatType)
    (r : SlotRecord) (rows : Rows)
    → lookup slot rows.slots ≡ some r
    → Simulated sender
        (view rows)
        (view (group_message now slot update_id sender chat_id chat kind r rows))
unfolding group_message in_group
group_message-Simulated now slot update_id sender chat_id chat kind r rows found =
    elim (Bool-cases (is_bound r.group_status)) [
      | inl e ↦ rw (group_message, e) (inl (view-audit now _ _ rows))
      | inr e ↦ elim (Bool-cases (opt_int_eq rows.binding.operator_user_id (some sender))) [
        | inl f ↦
            rw (group_message, e, f, view-noted)
              (inr (group-Step slot sender chat_id r rows found f))
        | inr f ↦
            rw (group_message, e, f)
              (inl (view-audit now _ _ _ ∙ put_quiet slot r _ rows found (ground (arith, e))))
      ]
    ]

pub by_chat-Simulated :
    (now : ℕ) (slot : String) (update_id : ℕ) (sender chat_id : ℤ) (chat : Chat) (kind : ChatType)
    (r : SlotRecord) (rows : Rows)
    → lookup slot rows.slots ≡ some r
    → Simulated sender
        (view rows)
        (view (by_chat now slot update_id sender chat_id chat kind r rows))
unfolding by_chat
by_chat-Simulated now slot update_id sender chat_id chat private_chat r rows found =
    private_message-Simulated now slot update_id sender r rows found
by_chat-Simulated now slot update_id sender chat_id chat group r rows found =
    group_message-Simulated now slot update_id sender chat_id chat group r rows found
by_chat-Simulated now slot update_id sender chat_id chat supergroup r rows found =
    group_message-Simulated now slot update_id sender chat_id chat supergroup r rows found
by_chat-Simulated now slot update_id sender chat_id chat channel r rows found =
    inl (view-audit now _ _ rows)
by_chat-Simulated now slot update_id sender chat_id chat other r rows found = inl refl

pub by_status-Simulated :
    (now : ℕ) (slot : String) (update_id : ℕ) (sender chat_id : ℤ) (chat : Chat) (kind : ChatType)
    (status : MemberStatus) (r : SlotRecord) (rows : Rows)
    → lookup slot rows.slots ≡ some r
    → opt_int_eq rows.binding.operator_user_id (some sender) ≡ true
    → Simulated sender
        (view rows)
        (view (by_status now slot update_id chat_id chat kind status r rows))
unfolding by_status in_group
by_status-Simulated now slot update_id sender chat_id chat kind status r rows found f =
    elim (Bool-cases (is_group_chat kind)) [
      | inr e ↦ rw (by_status, e) (inl refl)
      | inl e ↦ elim (Bool-cases (is_gone status)) [
        | inl g ↦ rw (by_status, e, g, view-noted) (inr (leave-Step slot sender r rows found f))
        | inr g ↦ elim (Bool-cases (is_present status)) [
          | inr p ↦ rw (by_status, e, g, p) (inl refl)
          | inl p ↦
              elim (Bool-cases
                (is_bound r.group_status && opt_int_eq r.group_chat_id (some chat_id))) [
                  | inl q ↦ rw (by_status, e, g, p, q) (inl (view-audit now _ _ rows))
                  | inr q ↦
                      rw (by_status, e, g, p, q, view-noted)
                        (inr (group-Step slot sender chat_id r rows found f))
                ]
        ]
      ]
    ]

-- What the two kinds of updates check first is not seen; `work` then sees a row that is there.
pub open_update-Simulated :
    (now : ℕ) (slot : String) (update_id : ℕ) (stale : String) (work : SlotRecord → Rows → Rows)
    (sender : ℤ)
    → ((r : SlotRecord) (rows : Rows)
        → lookup slot rows.slots ≡ some r
        → Simulated sender (view rows) (view (work r rows)))
    → (rows : Rows)
    → Simulated sender (view rows) (view (open_update now slot update_id stale work rows))
unfolding open_update touched put_slot
open_update-Simulated now slot update_id stale work sender works rows =
    elim (Option-cases (lookup slot rows.slots)) [
      | inl e ↦ rw (open_update, e) (inl refl)
      | inr (r, e) ↦
          let rows' = record rows { binding = expire_if_needed now rows.binding } in
          let same = view-expire now rows in
          elim (Bool-cases (is_closed rows'.binding.state)) [
            | inl c ↦ rw (open_update, e, c) (inl same)
            | inr c ↦ elim (Bool-cases (is_stale update_id r)) [
              | inl s ↦ rw (open_update, e, c, s) (inl (view-audit now _ _ rows' ∙ same))
              | inr s ↦
                  let touch = put_quiet slot r (touched now update_id r) rows' e refl ∙ same in
                  let step =
                    works (touched now update_id r) (put_slot slot (touched now update_id r) rows')
                      (lookup-insert_self slot (touched now update_id r) rows.slots) in
                  rw (open_update, e, c, s)
                    (subst
                      (λ v. Simulated sender v (
                        view (
                          work (touched now update_id r)
                            (put_slot slot (touched now update_id r) rows'))))
                      touch step)
            ]
          ]
    ]
