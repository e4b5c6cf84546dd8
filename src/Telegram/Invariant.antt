-- ===== src/Telegram/Invariant.antt =====
-- The rows of a binding session stay sound under every update of
-- control_plane/telegram/binding_service.py.
use ai_agent_desktop.Base.{
  ℕ, String, Bool, true, false, ◌&&◌, Option, none, some, [], ◌∷◌, ◌≡◌, refl, inl, inr, subst,
  arith, length, Bool-cases, Option-cases, str_eq, leb,
}
use ai_agent_desktop.Base.Dict.{Dict, lookup, insert, lookup-insert_self}
use ai_agent_desktop.Base.Int.{ℤ, int_eq_iff, opt_int_eq, opt_int_eq_iff}
use ai_agent_desktop.Telegram.Rows.{
  ChatType, private_chat, group, supergroup, channel, other, SlotRecord, Rows, audit, may_expire,
  is_bound, expire_if_needed,
}
use ai_agent_desktop.Telegram.Command.{is_group_chat}
use ai_agent_desktop.Telegram.Payload.{Chat, MemberStatus, touched, is_closed, is_stale}
use ai_agent_desktop.Telegram.Applied.{
  put_slot, finish_update, is_other_sender, private_message, in_group, group_message, by_chat,
  is_present, is_gone, by_status,
}
use ai_agent_desktop.Telegram.Updates.{open_update}
use ai_agent_desktop.Telegram.Sound.{
  is_completed, row_ok, rows_ok, IsAgreed, IsSound, recalculate-IsSound,
}

-- A session that is not completed needs only the agreement.
abbrev pub IsOpen : Rows → Type 0
IsOpen rows = IsAgreed rows × (is_completed rows.binding.state ≡ false)

pub IsOpen-IsSound : (rows : Rows) → IsOpen rows → IsSound rows
IsOpen-IsSound rows h = record { agreed = h.0; complete = λ c. ground (arith, h.1, c) }

pub finish_update-IsSound :
    (now : ℕ) (rows : Rows) → IsAgreed rows → IsSound (finish_update now rows)
unfolding finish_update
finish_update-IsSound now rows h = recalculate-IsSound now _ h

length-insert :
    (slot : String) (r r' : SlotRecord) (slots : Dict SlotRecord)
    → lookup slot slots ≡ some r
    → length (insert slot r' slots) ≡ length slots
unfolding lookup insert
length-insert slot r r' [] h = ground arith
length-insert slot r r' ((k, old) ∷ rest) h = elim (Bool-cases (str_eq k slot)) [
  | inl e ↦ rw e refl
  | inr e ↦
      let later = length-insert slot r r' rest (ground (arith, e, h)) in rw e (omega (arith, later))
]

rows_ok-insert :
    (operator : Option ℤ) (slot : String) (r : SlotRecord) (slots : Dict SlotRecord)
    → rows_ok operator slots ≡ true
    → row_ok operator r ≡ true
    → rows_ok operator (insert slot r slots) ≡ true
unfolding insert
rows_ok-insert operator slot r [] h k = ground (arith, k)
rows_ok-insert operator slot r ((key, old) ∷ rest) h k = elim (Bool-cases (str_eq key slot)) [
  | inl e ↦ rw e (ground (arith, h, k))
  | inr e ↦
      let later = rows_ok-insert operator slot r rest (ground (arith, h)) k in
      rw e (ground (arith, h, later))
]

abbrev opt_row_ok : Option ℤ → Option SlotRecord → Bool
opt_row_ok operator none = true
opt_row_ok operator (some r) = row_ok operator r

row_ok-lookup :
    (operator : Option ℤ) (slot : String) (r : SlotRecord) (slots : Dict SlotRecord)
    → rows_ok operator slots ≡ true
    → lookup slot slots ≡ some r
    → row_ok operator r ≡ true
unfolding lookup
row_ok-lookup operator slot r [] h k = ground arith
row_ok-lookup operator slot r ((key, old) ∷ rest) h k = elim (Bool-cases (str_eq key slot)) [
  | inl e ↦
      let same : some old ≡ some r = ground (arith, e, k) in
      subst (λ o. opt_row_ok operator o ≡ true) same (ground (arith, h))
  | inr e ↦ row_ok-lookup operator slot r rest (ground (arith, h)) (ground (arith, e, k))
]

-- Nobody is bound before there is an operator, so whoever comes agrees with the rows.
rows_ok-first :
    (sender : ℤ) (slots : Dict SlotRecord)
    → rows_ok none slots ≡ true
    → rows_ok (some sender) slots ≡ true
rows_ok-first sender [] h = refl
rows_ok-first sender ((k, r) ∷ rest) h =
    let later = rows_ok-first sender rest (ground (arith, h)) in ground (arith, h, later)

rows_ok-sender :
    (operator : Option ℤ) (sender : ℤ) (slots : Dict SlotRecord)
    → is_other_sender operator sender ≡ false
    → rows_ok operator slots ≡ true
    → rows_ok (some sender) slots ≡ true
rows_ok-sender none sender slots e h = rows_ok-first sender slots h
rows_ok-sender (some operator) sender slots e h =
    let same : operator ≡ sender = ground (arith, e, int_eq_iff operator sender) in
    subst (λ o. rows_ok (some o) slots ≡ true) same h

put_slot-IsAgreed :
    (slot : String) (r r' : SlotRecord) (rows : Rows)
    → lookup slot rows.slots ≡ some r
    → IsAgreed rows
    → row_ok rows.binding.operator_user_id r' ≡ true
    → IsAgreed (put_slot slot r' rows)
unfolding put_slot
put_slot-IsAgreed slot r r' rows found h k =
    let same = length-insert slot r r' rows.slots found in
    (
      omega (arith, same, h.0),
      rows_ok-insert rows.binding.operator_user_id slot r' rows.slots h.1 k,
    )

noted-IsSound :
    (now : ℕ) (event slot : String) (r r' : SlotRecord) (rows : Rows)
    → lookup slot rows.slots ≡ some r
    → IsAgreed rows
    → row_ok rows.binding.operator_user_id r' ≡ true
    → IsSound (finish_update now (audit now (some slot) event (put_slot slot r' rows)))
unfolding audit
noted-IsSound now event slot r r' rows found h k =
    finish_update-IsSound now (audit now (some slot) event (put_slot slot r' rows))
      (put_slot-IsAgreed slot r r' rows found h k)

private_message-IsSound :
    (now : ℕ) (slot : String) (update_id : ℕ) (sender : ℤ) (r : SlotRecord) (rows : Rows)
    → lookup slot rows.slots ≡ some r
    → IsOpen rows
    → IsSound (private_message now slot update_id sender r rows)
unfolding private_message audit put_slot
private_message-IsSound now slot update_id sender r rows found h =
    let ok = row_ok-lookup rows.binding.operator_user_id slot r rows.slots h.0.1 found in
    elim (Bool-cases (is_bound r.private_status)) [
      | inl e ↦ rw (private_message, e) (IsOpen-IsSound _ h)
      | inr e ↦ elim (Bool-cases (is_other_sender rows.binding.operator_user_id sender)) [
        | inl f ↦
            rw (private_message, e, f)
              (IsOpen-IsSound _
                (put_slot-IsAgreed slot r _ rows found h.0 (ground (arith, ok)), h.1))
        | inr f ↦
            rw (private_message, e, f)
              (noted-IsSound now _ slot r _
                (record rows { binding = record rows.binding { operator_user_id = some sender } })
                found
                (h.0.0, rows_ok-sender rows.binding.operator_user_id sender rows.slots f h.0.1)
                (ground (arith, ok, opt_int_eq_iff (some sender) (some sender))))
      ]
    ]

group_message-IsSound :
    (now : ℕ) (slot : String) (update_id : ℕ) (sender chat_id : ℤ) (chat : Chat) (kind : ChatType)
    (r : SlotRecord) (rows : Rows)
    → lookup slot rows.slots ≡ some r
    → IsOpen rows
    → IsSound (group_message now slot update_id sender chat_id chat kind r rows)
unfolding group_message audit put_slot in_group
group_message-IsSound now slot update_id sender chat_id chat kind r rows found h =
    let ok = row_ok-lookup rows.binding.operator_user_id slot r rows.slots h.0.1 found in
    elim (Bool-cases (is_bound r.group_status)) [
      | inl e ↦ rw (group_message, e) (IsOpen-IsSound _ h)
      | inr e ↦ elim (Bool-cases (opt_int_eq rows.binding.operator_user_id (some sender))) [
        | inl f ↦
            rw (group_message, e, f)
              (noted-IsSound now _ slot r _ rows found h.0 (ground (arith, ok)))
        | inr f ↦
            rw (group_message, e, f)
              (IsOpen-IsSound _
                (put_slot-IsAgreed slot r _ rows found h.0 (ground (arith, ok)), h.1))
      ]
    ]

pub by_chat-IsSound :
    (now : ℕ) (slot : String) (update_id : ℕ) (sender chat_id : ℤ) (chat : Chat) (kind : ChatType)
    (r : SlotRecord) (rows : Rows)
    → lookup slot rows.slots ≡ some r
    → IsOpen rows
    → IsSound (by_chat now slot update_id sender chat_id chat kind r rows)
unfolding by_chat audit
by_chat-IsSound now slot update_id sender chat_id chat private_chat r rows found h =
    private_message-IsSound now slot update_id sender r rows found h
by_chat-IsSound now slot update_id sender chat_id chat group r rows found h =
    group_message-IsSound now slot update_id sender chat_id chat group r rows found h
by_chat-IsSound now slot update_id sender chat_id chat supergroup r rows found h =
    group_message-IsSound now slot update_id sender chat_id chat supergroup r rows found h
by_chat-IsSound now slot update_id sender chat_id chat channel r rows found h = IsOpen-IsSound _ h
by_chat-IsSound now slot update_id sender chat_id chat other r rows found h = IsOpen-IsSound _ h

pub by_status-IsSound :
    (now : ℕ) (slot : String) (update_id : ℕ) (chat_id : ℤ) (chat : Chat) (kind : ChatType)
    (status : MemberStatus) (r : SlotRecord) (rows : Rows)
    → lookup slot rows.slots ≡ some r
    → IsOpen rows
    → IsSound (by_status now slot update_id chat_id chat kind status r rows)
unfolding by_status audit put_slot in_group
by_status-IsSound now slot update_id chat_id chat kind status r rows found h =
    let ok = row_ok-lookup rows.binding.operator_user_id slot r rows.slots h.0.1 found in
    elim (Bool-cases (is_group_chat kind)) [
      | inr e ↦ rw (by_status, e) (IsOpen-IsSound _ h)
      | inl e ↦ elim (Bool-cases (is_gone status)) [
        | inl g ↦
            rw (by_status, e, g) (noted-IsSound now _ slot r _ rows found h.0 (ground (arith, ok)))
        | inr g ↦ elim (Bool-cases (is_present status)) [
          | inr p ↦ rw (by_status, e, g, p) (IsOpen-IsSound _ h)
          | inl p ↦
              elim (Bool-cases
                (is_bound r.group_status && opt_int_eq r.group_chat_id (some chat_id))) [
                  | inl q ↦ rw (by_status, e, g, p, q) (IsOpen-IsSound _ h)
                  | inr q ↦
                      rw (by_status, e, g, p, q)
                        (noted-IsSound now _ slot r _ rows found h.0 (ground (arith, ok)))
                ]
        ]
      ]
    ]

pub expire-IsSound :
    (now : ℕ) (rows : Rows)
    → IsSound rows
    → IsSound (record rows { binding = expire_if_needed now rows.binding })
unfolding expire_if_needed
expire-IsSound now rows h =
    elim (Bool-cases (leb rows.binding.expires_at now && may_expire rows.binding.state)) [
      | inl e ↦ rw e (IsOpen-IsSound _ (h.agreed, refl))
      | inr e ↦ rw e (record { agreed = h.agreed; complete = h.complete })
    ]

-- An update works only on a session that is not completed.
pub open_update-IsSound :
    (now : ℕ) (slot : String) (update_id : ℕ) (stale : String) (work : SlotRecord → Rows → Rows)
    → ((r : SlotRecord) (rows : Rows)
        → lookup slot rows.slots ≡ some r
        → IsOpen rows
        → IsSound (work r rows))
    → (rows : Rows) → IsSound rows
    → IsSound (open_update now slot update_id stale work rows)
unfolding open_update audit touched put_slot
open_update-IsSound now slot update_id stale work works rows h =
    elim (Option-cases (lookup slot rows.slots)) [
      | inl e ↦ rw (open_update, e) h
      | inr (r, e) ↦
          let rows' = record rows { binding = expire_if_needed now rows.binding } in
          let h' = expire-IsSound now rows h in
          elim (Bool-cases (is_closed rows'.binding.state)) [
            | inl c ↦ rw (open_update, e, c) h'
            | inr c ↦ elim (Bool-cases (is_stale update_id r)) [
              | inl s ↦
                  rw (open_update, e, c, s) (record { agreed = h'.agreed; complete = h'.complete })
              | inr s ↦
                  let ok =
                    row_ok-lookup rows'.binding.operator_user_id slot r rows.slots h'.agreed.1 e in
                  rw (open_update, e, c, s)
                    (works (touched now update_id r) (put_slot slot (touched now update_id r) rows')
                      (lookup-insert_self slot (touched now update_id r) rows.slots)
                      (
                        put_slot-IsAgreed slot r (touched now update_id r) rows' e h'.agreed ok,
                        ground (arith, c),
                      ))
            ]
          ]
    ]
