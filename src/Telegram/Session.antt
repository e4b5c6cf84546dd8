-- ===== src/Telegram/Session.antt =====
-- What the methods of control_plane/telegram/binding_service.py work with: the answers, the errors
-- and the rows that they write.
use Prim.Native.String.{◌++◌ as ◌<>◌}
use ai_agent_desktop.Base.{
  ℕ, ◌+◌, String, Bool, true, false, Option, none, some, List, [], ◌∷◌, if◌then◌else◌,
}
use ai_agent_desktop.Base.Dict.{Dict}
use ai_agent_desktop.Base.Int.{ℤ}
use ai_agent_desktop.Errors.{UserFacingError, user_error, Result}
use ai_agent_desktop.Lease.Model.{World}
use ai_agent_desktop.Telegram.Rows.{
  Text, BindingState, waiting_private, completed, canceled, expired, conflict, failed, pending,
  SessionRecord, SlotRecord, Rows, audit, private_count, group_count,
}
use ai_agent_desktop.Telegram.Command.{TelegramBotSlot, slot_name}

-- `TelegramBotIdentity`, a verified bot.
pub record Identity : Type 0 where
  pub slot : TelegramBotSlot
  pub bot_id : ℤ
  pub username : String
  pub credential_reference_id : String
  pub credential_revision : ℕ

-- The sessions by their ids, and the leases of the slots.
pub record Service : Type 0 where
  pub sessions : Dict Rows
  pub leases : World

-- A method that may raise.
abbrev pub Call : Type 0 → Type 0
Call A = Service → Result A × Service

-- `BindingSession`: the rows, counted.
pub record BindingSession : Type 0 where
  pub session_id : String
  pub binding : SessionRecord
  pub slots : Dict SlotRecord
  pub bound_private_count : ℕ
  pub bound_group_count : ℕ

pub record BindingSessionCreated : Type 0 where
  pub session : BindingSession
  pub bind_code : Text
  pub private_deep_links : Dict Text
  pub group_deep_links : Dict Text
  pub private_commands : Dict Text
  pub group_commands : Dict Text

-- `_model`
unfoldable pub model : String → Rows → BindingSession
model session_id rows = record {
  session_id = session_id;
  binding = rows.binding;
  slots = rows.slots;
  bound_private_count = private_count rows.slots;
  bound_group_count = group_count rows.slots;
}

abbrev pub not_found : UserFacingError
not_found =
    user_error "TELEGRAM_BINDING_NOT_FOUND" "Telegram binding session was not found." false []

unfoldable pub owner_not_released : String → UserFacingError
owner_not_released slot =
    user_error "TELEGRAM_UPDATE_OWNER_NOT_RELEASED"
      ("Telegram bot slot " <> slot <> " is already owned by another update consumer.") false
      ("stop_corresponding_runtime" ∷ "release_update_owner" ∷ [])

abbrev pub identity_changed : UserFacingError
identity_changed =
    user_error "TELEGRAM_BINDING_IDENTITY_CHANGED"
      "A Telegram bot identity or credential changed since this binding session was created." false
      ("create_new_binding_session" ∷ "verify_bot_identity" ∷ [])

terminated : String → String → UserFacingError
terminated code message = user_error code message false ("create_new_binding_session" ∷ [])

-- `terminal_errors.get(record.state)`
unfoldable pub terminal_error : BindingState → Option UserFacingError
unfolding terminated
terminal_error completed = some (
    terminated "TELEGRAM_BINDING_ALREADY_COMPLETED"
      "Telegram binding session is already completed.")
terminal_error canceled =
    some (terminated "TELEGRAM_BINDING_CANCELED" "Telegram binding session has been canceled.")
terminal_error expired = some (
    terminated "TELEGRAM_BINDING_EXPIRED"
      "Telegram binding session has expired; create a new session.")
terminal_error conflict =
    some (
      terminated "TELEGRAM_BINDING_CONFLICT" "Telegram binding session has a consistency conflict.")
terminal_error failed =
    some (terminated "TELEGRAM_BINDING_FAILED" "Telegram binding session has failed.")
terminal_error _ = none

abbrev pub all_slots : List String
all_slots = "hermes" ∷ "claude" ∷ "codex" ∷ []

new_binding : String → ℕ → ℕ → SessionRecord
new_binding digest expires_at now = record {
  code_digest = digest;
  state = waiting_private;
  expires_at = expires_at;
  operator_user_id = none;
  group_chat_id = none;
  group_title = none;
  group_type = none;
  revision = 1;
  created_at = now;
  updated_at = now;
  completed_at = none;
  canceled_at = none;
  failure_code = none;
}

new_slot : ℕ → Identity → SlotRecord
new_slot now identity = record {
  bot_id = identity.bot_id;
  username = identity.username;
  credential_revision = identity.credential_revision;
  private_status = pending;
  group_status = pending;
  private_user_id = none;
  group_chat_id = none;
  group_title = none;
  group_type = none;
  private_update_id = none;
  group_update_id = none;
  last_update_id = none;
  updated_at = now;
}

unfoldable pub new_slots : ℕ → List Identity → Dict SlotRecord
unfolding new_slot
new_slots now [] = []
new_slots now (identity ∷ rest) =
    (slot_name identity.slot, new_slot now identity) ∷ new_slots now rest

-- The rows that `create` adds.
unfoldable pub new_rows : String → ℕ → ℕ → List Identity → Rows
unfolding new_binding new_slots audit
new_rows digest expires_at now identities = audit now none "binding.created" (record {
  binding = new_binding digest expires_at now;
  slots = new_slots now identities;
  groups = [];
  audits = [];
})

-- The rows that `resume` writes.
unfoldable pub resumed_rows : String → ℕ → ℕ → Rows → Rows
unfolding audit
resumed_rows digested expires_at now rows = audit now none "binding.resumed" (record rows {
  binding = record rows.binding {
    code_digest = digested;
    expires_at = expires_at;
    updated_at = now;
    revision = rows.binding.revision + 1;
  };
})

-- The rows that `_set_state` writes.
unfoldable pub marked_rows : ℕ → BindingState → String → Rows → Rows
marked_rows now state failure_code rows = record rows {
  binding = record rows.binding {
    state = state;
    failure_code = some failure_code;
    updated_at = now;
    revision = rows.binding.revision + 1;
  };
}

-- The states in which `cancel` writes nothing.
abbrev pub is_over : BindingState → Bool
is_over completed = true
is_over canceled = true
is_over expired = true
is_over _ = false

unfoldable pub cancel_rows : ℕ → Rows → Rows
unfolding audit
cancel_rows now rows =
    if is_over rows.binding.state
    then rows
    else audit now none "binding.canceled" (record rows {
      binding = record rows.binding {
        state = canceled;
        canceled_at = some now;
        updated_at = now;
        revision = rows.binding.revision + 1;
      };
    })

-- The decision of `recovery_probe`: the action, with the session or the code of the failure.
pub data Probe : Type 0 where
  complete : BindingSession → Probe
  requeue : Probe
  fail : String → Probe
