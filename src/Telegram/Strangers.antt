-- ===== src/Telegram/Strangers.antt =====
-- What people other than the operator can do to a binding session of
-- control_plane/telegram/binding_service.py.
use ai_agent_desktop.Base.{ℕ, String, Option, none, some, ◌≡◌, ◌≢◌, inl, inr, sym, ap, ◌∙◌, arith}
use ai_agent_desktop.Base.Int.{ℤ}
use ai_agent_desktop.Telegram.Rows.{Text, Rows}
use ai_agent_desktop.Telegram.Payload.{Update}
use ai_agent_desktop.Telegram.Updates.{process_update}
use ai_agent_desktop.Telegram.Policy.{View, view, Step, bind_private, bind_group, leave_group}
use ai_agent_desktop.Telegram.Refinement.{
  ByActor, member_actor, message_actor, process_update-refines,
}

-- Every step of a session that has an operator is the operator's.
Step-operator :
    (actor operator : ℤ) (v v' : View)
    → v.operator ≡ some operator
    → Step actor v v'
    → some actor ≡ some operator
Step-operator actor operator v v' known (bind_private slot c found free (inl e) after) =
    ground (arith, known, e)
Step-operator actor operator v v' known (bind_private slot c found free (inr e) after) =
    sym e ∙ known
Step-operator actor operator v v' known (bind_group slot c chat found e after) = sym e ∙ known
Step-operator actor operator v v' known (leave_group slot c found e after) = sym e ∙ known

stranger_view :
    (actor : Option ℤ) (operator : ℤ) (v v' : View)
    → v.operator ≡ some operator
    → actor ≢ some operator
    → ByActor actor v v'
    → v' ≡ v
stranger_view none operator v v' known other same = same
stranger_view (some actor) operator v v' known other (inl same) = same
stranger_view (some actor) operator v v' known other (inr step) =
    elim (other (Step-operator actor operator v v' known step)) [ ]

module _ (casefold : Text → Text) (digest : Text → String) where
  -- Once a session has an operator, an update of which neither the message nor the change of
  -- membership is the operator's leaves the operator as it is, and the private user and the group
  -- to which each bot is bound.
  pub strangers_keep :
      (now later : ℕ) (slot : String) (update : Update) (rows : Rows) (operator : ℤ)
      → rows.binding.operator_user_id ≡ some operator
      → member_actor update.membership ≢ some operator
      → message_actor update.message ≢ some operator
      → view (process_update casefold digest now later slot update rows) ≡ view rows
  unfolding view
  strangers_keep now later slot update rows operator known joiner sender =
      let (v, first, second) = process_update-refines casefold digest now later slot update rows in
      let same =
        stranger_view (member_actor update.membership) operator (view rows) v known joiner first in
      let known' = ap (λ w. w.operator) same ∙ known in
      stranger_view (message_actor update.message) operator v _ known' sender second ∙ same
