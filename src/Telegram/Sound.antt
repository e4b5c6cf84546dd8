-- ===== src/Telegram/Sound.antt =====
-- When the rows of a binding session of control_plane/telegram/binding_service.py agree with each
-- other, and that `_recalculate` completes a session only of such rows.
use ai_agent_desktop.Base.{
  ℕ, ◌≤◌, Bool, true, false, not, ◌&&◌, ◌||◌, Option, none, some, [], ◌∷◌, ◌≡◌, refl, inl, inr,
  arith, length, ltb, Bool-cases,
}
use ai_agent_desktop.Base.Dict.{Dict}
use ai_agent_desktop.Base.Int.{ℤ, opt_int_eq, opt_int_eq_iff}
use ai_agent_desktop.Telegram.Rows.{
  BindingState, completed, SlotRecord, Rows, is_bound, private_count, group_count, all_groups,
  one_group_one_user, all_group_types, first_group, recalculate, audit, complete_rows,
}

abbrev pub is_given : Option ℤ → Bool
is_given none = false
is_given (some id) = true

abbrev pub is_completed : BindingState → Bool
is_completed completed = true
is_completed _ = false

-- A bound private chat is the operator's, and a bound group has an id.
abbrev pub row_ok : Option ℤ → SlotRecord → Bool
row_ok operator r =
    (not (is_bound r.private_status)
      || (opt_int_eq r.private_user_id operator && is_given operator))
    && (not (is_bound r.group_status) || is_given r.group_chat_id)

abbrev pub rows_ok : Option ℤ → Dict SlotRecord → Bool
rows_ok operator [] = true
rows_ok operator ((k, r) ∷ rest) = row_ok operator r && rows_ok operator rest

-- Both chats are bound, to the operator and to the one group.
abbrev pub row_complete : Option ℤ → Option ℤ → SlotRecord → Bool
row_complete operator chat r =
    is_bound r.private_status
    && is_bound r.group_status
    && opt_int_eq r.private_user_id operator
    && opt_int_eq r.group_chat_id chat

abbrev pub rows_complete : Option ℤ → Option ℤ → Dict SlotRecord → Bool
rows_complete operator chat [] = true
rows_complete operator chat ((k, r) ∷ rest) =
    row_complete operator chat r && rows_complete operator chat rest

abbrev pub IsAgreed : Rows → Type 0
IsAgreed rows = (length rows.slots ≡ 3) × (rows_ok rows.binding.operator_user_id rows.slots ≡ true)

-- Three bots, each bound in private to the operator and in the group of the session.
abbrev pub IsComplete : Rows → Type 0
IsComplete rows =
    (length rows.slots ≡ 3)
    × (is_given rows.binding.operator_user_id ≡ true)
    × (is_given rows.binding.group_chat_id ≡ true)
    × (rows_complete rows.binding.operator_user_id rows.binding.group_chat_id rows.slots ≡ true)

pub record IsSound (rows : Rows) : Type 0 where
  pub agreed : IsAgreed rows
  pub complete : is_completed rows.binding.state ≡ true → IsComplete rows

private_count_le : (slots : Dict SlotRecord) → private_count slots ≤ length slots
private_count_le [] = omega arith
private_count_le ((k, r) ∷ rest) = ground (arith, private_count_le rest)

group_count_le : (slots : Dict SlotRecord) → group_count slots ≤ length slots
group_count_le [] = omega arith
group_count_le ((k, r) ∷ rest) = ground (arith, group_count_le rest)

-- All rows are bound, so what their columns share is the operator and one group.
rows_complete_of :
    (operator chat : Option ℤ) (slots : Dict SlotRecord)
    → length slots ≤ private_count slots
    → length slots ≤ group_count slots
    → rows_ok operator slots ≡ true
    → all_groups chat slots ≡ true
    → rows_complete operator chat slots ≡ true
rows_complete_of operator chat [] p g ok groups = refl
rows_complete_of operator chat ((k, r) ∷ rest) p g ok groups =
    let p' = private_count_le rest in
    let g' = group_count_le rest in
    let private : is_bound r.private_status ≡ true = ground (arith, p') in
    let grouped : is_bound r.group_status ≡ true = ground (arith, g') in
    let rest_p : length rest ≤ private_count rest = ground (arith, p') in
    let rest_g : length rest ≤ group_count rest = ground (arith, g') in
    let rest_ok : rows_ok operator rest ≡ true = ground (arith, ok) in
    let rest_groups : all_groups chat rest ≡ true = ground (arith, groups) in
    let later = rows_complete_of operator chat rest rest_p rest_g rest_ok rest_groups in
    ground (arith, ok, groups, later, private, grouped)

opt_int_eq_refl : (a : Option ℤ) → opt_int_eq a a ≡ true
opt_int_eq_refl a = ground (arith, opt_int_eq_iff a a)

complete_slots :
    (operator : Option ℤ) (slots : Dict SlotRecord)
    → length slots ≡ 3
    → rows_ok operator slots ≡ true
    → 3 ≤ private_count slots
    → 3 ≤ group_count slots
    → one_group_one_user slots ≡ true
    → (is_given operator ≡ true)
      × (is_given (first_group slots) ≡ true)
      × (rows_complete operator (first_group slots) slots ≡ true)
unfolding one_group_one_user
complete_slots operator [] three ok p g one = ground arith
complete_slots operator ((k, r) ∷ rest) three ok p g one =
    let groups : all_groups r.group_chat_id ((k, r) ∷ rest) ≡ true =
      ground (arith, one, opt_int_eq_refl r.group_chat_id) in
    let rows =
      rows_complete_of operator r.group_chat_id ((k, r) ∷ rest) (omega (arith, three, p))
        (omega (arith, three, g)) ok groups in
    let private : is_bound r.private_status ≡ true = ground (arith, rows) in
    let grouped : is_bound r.group_status ≡ true = ground (arith, rows) in
    let owned : is_given operator ≡ true = ground (arith, ok, private) in
    let in_one : is_given r.group_chat_id ≡ true = ground (arith, ok, grouped) in
    (owned, in_one, rows)

-- The rows when every test of `_recalculate` has passed.
complete_rows-IsComplete :
    (now : ℕ) (rows : Rows)
    → IsAgreed rows
    → 3 ≤ private_count rows.slots
    → 3 ≤ group_count rows.slots
    → one_group_one_user rows.slots ≡ true
    → IsComplete (complete_rows now rows)
unfolding complete_rows one_group_one_user audit
complete_rows-IsComplete now rows agreed p g one =
    let (owned, in_one, whole) =
      complete_slots rows.binding.operator_user_id rows.slots agreed.0 agreed.1 p g one in
    (agreed.0, owned, in_one, whole)

pub recalculate-IsSound : (now : ℕ) (rows : Rows) → IsAgreed rows → IsSound (recalculate now rows)
unfolding recalculate audit complete_rows
recalculate-IsSound now rows agreed = elim (Bool-cases (ltb (private_count rows.slots) 3)) [
  | inl e ↦ rw (recalculate, e) (record { agreed = agreed; complete = λ h. ground (arith, h) })
  | inr e ↦ elim (Bool-cases (ltb (group_count rows.slots) 3)) [
    | inl f ↦ rw (recalculate, e, f) (record { agreed = agreed; complete = λ h. ground (arith, h) })
    | inr f ↦
        elim (Bool-cases
          (not (one_group_one_user rows.slots) || not (all_group_types rows.slots))) [
            | inl g ↦
                rw (recalculate, e, f, g)
                  (record { agreed = agreed; complete = λ h. ground (arith, h) })
            | inr g ↦
                rw (recalculate, e, f, g)
                  (record {
                    agreed = agreed;
                    complete = λ _.
                        complete_rows-IsComplete now rows agreed (ground (arith, e))
                          (ground (arith, f)) (ground (arith, g));
                  })
          ]
  ]
]
