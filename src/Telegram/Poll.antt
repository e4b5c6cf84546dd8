-- ===== src/Telegram/Poll.antt =====
-- `poll` of control_plane/telegram/binding_service.py: one lease of the slot's updates, from
-- `acquire` to the `release` of its `finally`. What other services and the platform answer is
-- `Environment`.
use ai_agent_desktop.Base.{
  ℕ, ◌+◌, suc, max, String, Bool, true, false, Option, none, some, List, [], ◌∷◌, contains,
  if◌then◌else◌,
}
use ai_agent_desktop.Base.Dict.{lookup}
use ai_agent_desktop.Errors.{UserFacingError, user_error, Result, ok, err}
use ai_agent_desktop.Lease.Model.{Lease, control_plane_binding, acquire, heartbeat, release}
use ai_agent_desktop.Telegram.Rows.{
  Text, BindingState, completed, canceled, expired, conflict, failed,
}
use ai_agent_desktop.Telegram.Payload.{Update}
use ai_agent_desktop.Telegram.Updates.{process_update}
use ai_agent_desktop.Telegram.Session.{Identity, Service, Call, BindingSession, all_slots}
use ai_agent_desktop.Telegram.Service.{put_rows, tick, get, set_state}

pub record Environment : Type 0 where
  pub identity : Option Identity
  -- The revision of the identity's credential.
  pub metadata_revision : Result ℕ
  -- What the n-th `safe_checkpoint` raises.
  pub checkpoint : ℕ → Option UserFacingError
  -- Whether the bot has a webhook.
  pub webhook : Result Bool
  -- The updates from an offset.
  pub get_updates : ℕ → Result (List Update)

-- The states in which `poll` answers at once.
abbrev pub is_settled : BindingState → Bool
is_settled completed = true
is_settled canceled = true
is_settled expired = true
is_settled conflict = true
is_settled failed = true
is_settled _ = false

abbrev pub slot_invalid : UserFacingError
slot_invalid = user_error "TELEGRAM_SLOT_INVALID" "Telegram bot slot is invalid." false []

abbrev pub not_verified : UserFacingError
not_verified =
    user_error "TELEGRAM_IDENTITY_NOT_VERIFIED" "Telegram bot identity is not verified." false
      ("verify_bot_identity" ∷ [])

abbrev pub webhook_conflict : UserFacingError
webhook_conflict =
    user_error "TELEGRAM_WEBHOOK_CONFLICT"
      "Telegram bot has an active webhook; Control Plane did not delete it." false
      ("explicitly_resolve_webhook_owner" ∷ [])

-- `max(60, timeout_seconds + 30)`
abbrev pub lease_seconds : ℕ → ℕ
lease_seconds timeout = max 60 (timeout + 30)

module _ (clock : ℕ → ℕ) (casefold : Text → Text) (digest : String → Text → String) where
  -- `_process_update` in the table of sessions; each of its two database sessions reads the clock.
  unfoldable pub process : String → String → Update → Service → Service
  unfolding process_update put_rows tick
  process session_id slot update s = elim (lookup session_id s.sessions) [
    | none ↦ s
    | some rows ↦ tick clock (
        tick clock (
          put_rows session_id
            (process_update casefold (digest session_id) (clock s.leases.ticks)
              (clock (s.leases.ticks + 1)) slot update rows)
            s))
  ]

  -- The loop over the updates: what it raises, if anything.
  unfoldable pub serve_updates :
      Environment
      → String
      → String
      → String
      → ℕ
      → ℕ
      → List Update
      → Service
      → Option UserFacingError × Service
  unfolding process
  serve_updates env operation_id session_id slot timeout n [] s = (none, s)
  serve_updates env operation_id session_id slot timeout n (update ∷ rest) s =
      elim (env.checkpoint n) [
        | some e ↦ (some e, s)
        | none ↦
            let s' = process session_id slot update s in
            let (beat, w) =
              heartbeat clock slot operation_id (some (update.update_id + 1))
                (lease_seconds timeout) s'.leases in
            let s'' = record s' { leases = w } in
            elim beat [
              | err e ↦ (some e, s'')
              | ok _ ↦ serve_updates env operation_id session_id slot timeout (suc n) rest s''
            ]
      ]

  -- What follows the updates: the session, or what the loop raised.
  unfoldable pub served :
      String → Option UserFacingError × Service → Result BindingSession × Service
  unfolding get
  served session_id (some e, s) = (err e, s)
  served session_id (none, s) = get clock session_id s

  -- The body of the `try`.
  unfoldable pub hold : Environment → String → String → String → ℕ → ℕ → Call BindingSession
  unfolding serve_updates served set_state
  hold env operation_id session_id slot timeout offset s = elim (env.checkpoint 0) [
    | some e ↦ (err e, s)
    | none ↦ elim env.webhook [
      | err e ↦ (err e, s)
      | ok true ↦
          (err webhook_conflict, set_state clock session_id conflict "TELEGRAM_WEBHOOK_CONFLICT" s)
      | ok false ↦ elim (env.get_updates offset) [
        | err e ↦ (err e, s)
        | ok updates ↦
            served session_id (serve_updates env operation_id session_id slot timeout 1 updates s)
      ]
    ]
  ]

  -- `try` and `finally` around it, once the lease is granted.
  unfoldable pub hold_and_release :
      Environment → String → String → String → ℕ → Lease → Call BindingSession
  unfolding hold
  hold_and_release env operation_id session_id slot timeout lease s =
      let (result, s') = hold env operation_id session_id slot timeout lease.row.offset s in
      (
        result,
        record s' {
          leases = (release clock slot (some operation_id) "binding_poll_finished" s'.leases).0;
        },
      )

  -- From the identity on.
  unfoldable pub lease_and_hold : Environment → String → String → String → ℕ → Call BindingSession
  unfolding hold_and_release
  lease_and_hold env operation_id session_id slot timeout s = elim env.identity [
    | none ↦ (err not_verified, s)
    | some identity ↦ elim env.metadata_revision [
      | err e ↦ (err e, s)
      | ok revision ↦
          let (attempt, w) =
            acquire clock slot control_plane_binding operation_id revision (lease_seconds timeout)
              s.leases in
          elim attempt [
            | err e ↦ (err e, record s { leases = w })
            | ok lease ↦
                hold_and_release env operation_id session_id slot timeout lease
                  (record s { leases = w })
          ]
    ]
  ]

  unfoldable pub poll : Environment → String → String → String → ℕ → Call BindingSession
  unfolding lease_and_hold
  poll env operation_id session_id slot timeout s =
      if contains all_slots slot
      then (let (session, s') = get clock session_id s in
          elim session [
            | err e ↦ (err e, s')
            | ok found ↦ elim (is_settled found.binding.state) [
              | true ↦ (ok found, s')
              | false ↦ lease_and_hold env operation_id session_id slot timeout s'
            ]
          ])
      else (err slot_invalid, s)
