-- ===== src/Telegram/Policy.antt =====
-- What a binding session promises of control_plane/telegram/binding_service.py: who is bound where,
-- and the steps that one person can make. It forgets states, times, audits and update numbers.
use ai_agent_desktop.Base.{
  String, Option, none, some, [], ◌∷◌, ◌≡◌, ◌⊎◌, inl, inr, refl, ap, arith, if◌then◌else◌,
  Bool-cases, str_eq,
}
use ai_agent_desktop.Base.Dict.{Dict, lookup, insert}
use ai_agent_desktop.Base.Int.{ℤ}
use ai_agent_desktop.Telegram.Rows.{SlotRecord, Rows, is_bound}

-- The user whom a bot knows in private, and the group that it is in.
pub record Cell : Type 0 where
  pub user : Option ℤ
  pub chat : Option ℤ

pub record View : Type 0 where
  pub operator : Option ℤ
  pub cells : Dict Cell

abbrev pub cell_of : SlotRecord → Cell
cell_of r = record {
  user = if is_bound r.private_status then r.private_user_id else none;
  chat = if is_bound r.group_status then r.group_chat_id else none;
}

abbrev pub cells_of : Dict SlotRecord → Dict Cell
cells_of [] = []
cells_of ((k, r) ∷ rest) = (k, cell_of r) ∷ cells_of rest

unfoldable pub view : Rows → View
view rows = record { operator = rows.binding.operator_user_id; cells = cells_of rows.slots }

-- The first to bind a private chat becomes the operator; all else is the operator's to do.
pub data Step (actor : ℤ) (v v' : View) : Type 0 where
  bind_private :
      (slot : String) (c : Cell)
      → lookup slot v.cells ≡ some c
      → c.user ≡ none
      → (v.operator ≡ none) ⊎ (v.operator ≡ some actor)
      → v' ≡ record {
        operator = some actor;
        cells = insert slot (record c { user = some actor }) v.cells;
      }
      → Step actor v v'
  bind_group :
      (slot : String) (c : Cell) (chat : ℤ)
      → lookup slot v.cells ≡ some c
      → v.operator ≡ some actor
      → v' ≡ record v { cells = insert slot (record c { chat = some chat }) v.cells }
      → Step actor v v'
  leave_group :
      (slot : String) (c : Cell)
      → lookup slot v.cells ≡ some c
      → v.operator ≡ some actor
      → v' ≡ record v { cells = insert slot (record c { chat = none }) v.cells }
      → Step actor v v'

-- Nothing is seen, or one step of the actor.
abbrev pub Simulated : ℤ → View → View → Type 0
Simulated actor v v' = (v' ≡ v) ⊎ Step actor v v'

pub cells_of-insert :
    (slot : String) (r : SlotRecord) (slots : Dict SlotRecord)
    → cells_of (insert slot r slots) ≡ insert slot (cell_of r) (cells_of slots)
unfolding insert
cells_of-insert slot r [] = refl
cells_of-insert slot r ((k, old) ∷ rest) =
    let later = cells_of-insert slot r rest in
    elim (Bool-cases (str_eq k slot)) [
      | inl e ↦ rw e refl
      | inr e ↦ rw e (ap (λ d. (k, cell_of old) ∷ d) later)
    ]

pub lookup-cells_of :
    (slot : String) (r : SlotRecord) (slots : Dict SlotRecord)
    → lookup slot slots ≡ some r
    → lookup slot (cells_of slots) ≡ some (cell_of r)
unfolding lookup
lookup-cells_of slot r [] h = ground arith
lookup-cells_of slot r ((k, old) ∷ rest) h = elim (Bool-cases (str_eq k slot)) [
  | inl e ↦ ground (arith, e, h)
  | inr e ↦ rw e (lookup-cells_of slot r rest (ground (arith, e, h)))
]
