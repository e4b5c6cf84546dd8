-- ===== src/Telegram/Service.antt =====
-- The life of a binding session: `create`, `resume`, `get`, `cancel`, `_set_state` and
-- `recovery_probe` of control_plane/telegram/binding_service.py. What other services answer (the
-- verified identities, the internal credentials) and what `secrets` draws are arguments.
use ai_agent_desktop.Base.{
  ℕ, ◌+◌, String, Bool, true, false, ◌&&◌, Option, none, some, List, [], ◌∷◌, ◌++◌, ◌==◌,
  if◌then◌else◌,
}
use ai_agent_desktop.Base.Dict.{Dict, lookup, insert}
use ai_agent_desktop.Base.Int.{int_eq}
use ai_agent_desktop.Errors.{UserFacingError, Result, ok, err}
use ai_agent_desktop.Lease.Model as Lease
use ai_agent_desktop.Lease.Model.{
  World, control_plane_binding, nobody, same_owner, seconds, release,
}
use ai_agent_desktop.Telegram.Rows.{
  Text, BindingState, waiting_private, waiting_group, partially_bound, completed, SlotRecord, Rows,
  expire_if_needed,
}
use ai_agent_desktop.Telegram.Command.{
  codes, slot_name, bind_payload, private_command, group_command, text_eq,
}
use ai_agent_desktop.Telegram.Session.{
  Identity, Service, Call, BindingSession, BindingSessionCreated, model, not_found,
  owner_not_released, identity_changed, terminal_error, all_slots, new_rows, cancel_rows,
  resumed_rows, marked_rows, Probe, complete, requeue, fail,
}

unfoldable pub put_rows : String → Rows → Service → Service
put_rows session_id rows s = record s { sessions = insert session_id rows s.sessions }

module _ (clock : ℕ → ℕ) where
  abbrev now_at : Service → ℕ
  now_at s = clock s.leases.ticks

  -- A method reads the clock once.
  unfoldable pub tick : Service → Service
  tick s = record s { leases = record s.leases { ticks = s.leases.ticks + 1 } }

  unfoldable pub get : String → Call BindingSession
  unfolding put_rows model expire_if_needed tick
  get session_id s = elim (lookup session_id s.sessions) [
    | none ↦ (err not_found, s)
    | some rows ↦
        let rows' = record rows { binding = expire_if_needed (now_at s) rows.binding } in
        (ok (model session_id rows'), tick (put_rows session_id rows' s))
  ]

  -- The loop of `_require_binding_prerequisites`: the first slot with an owner, if any.
  unfoldable pub owned_slot : List String → World → Option String × World
  owned_slot [] w = (none, w)
  owned_slot (slot ∷ rest) w =
      let (w', lease) = Lease.get clock slot w in
      elim (same_owner lease.row.owner nobody) [
        | true ↦ owned_slot rest w'
        | false ↦ (some slot, w')
      ]

  -- `_require_binding_prerequisites`; `credentials` is what `ensure_internal_runtime_credentials`
  -- raises.
  unfoldable pub require_prerequisites :
      Result (List Identity) → Option UserFacingError → Call (List Identity)
  unfolding owned_slot owner_not_released
  require_prerequisites (err e) credentials s = (err e, s)
  require_prerequisites (ok identities) credentials s =
      let (owned, w) = owned_slot all_slots s.leases in
      elim owned [
        | some slot ↦ (err (owner_not_released slot), record s { leases = w })
        | none ↦ elim credentials [
          | some e ↦ (err e, record s { leases = w })
          | none ↦ (ok identities, record s { leases = w })
        ]
      ]

  module _ (casefold quote : Text → Text) (digest : String → Text → String) where
    deep_link : String → Text → Identity → Text
    deep_link parameter code identity =
        codes "https://t.me/"
        ++ (quote (codes identity.username) ++ (codes parameter ++ bind_payload identity.slot code))

    by_slot : (Identity → Text) → List Identity → Dict Text
    by_slot f [] = []
    by_slot f (identity ∷ rest) = (slot_name identity.slot, f identity) ∷ by_slot f rest

    links_and_commands : List Identity → Text → BindingSession → BindingSessionCreated
    unfolding deep_link by_slot
    links_and_commands identities code session = record {
      session = session;
      bind_code = code;
      private_deep_links = by_slot (deep_link "?start=" code) identities;
      group_deep_links = by_slot (deep_link "?startgroup=" code) identities;
      private_commands = by_slot (λ i. private_command i.slot code) identities;
      group_commands = by_slot (λ i. group_command (codes i.username) i.slot code) identities;
    }

    created_from : List Identity → Text → Result BindingSession → Result BindingSessionCreated
    unfolding links_and_commands
    created_from identities code (err e) = err e
    created_from identities code (ok session) = ok (links_and_commands identities code session)

    -- `_created_response`
    unfoldable pub created_response : String → List Identity → Text → Call BindingSessionCreated
    unfolding get created_from
    created_response session_id identities code s =
        let (session, s') = get session_id s in (created_from identities code session, s')

    -- `session_id` and `code` are what `secrets` draws.
    unfoldable pub create :
        Result (List Identity)
        → Option UserFacingError
        → String
        → Text
        → ℕ
        → Call BindingSessionCreated
    unfolding require_prerequisites created_response new_rows tick put_rows
    create verified credentials session_id code expires_in s =
        let (required, s') = require_prerequisites verified credentials s in
        elim required [
          | err e ↦ (err e, s')
          | ok identities ↦ created_response session_id identities code (
              tick (
                put_rows session_id
                  (new_rows (digest session_id code) (now_at s' + seconds expires_in) (now_at s')
                    identities)
                  s'))
        ]

    abbrev pub same_bot : Identity → SlotRecord → Bool
    same_bot identity r =
        int_eq r.bot_id identity.bot_id
        && text_eq (casefold (codes r.username)) (casefold (codes identity.username))
        && (r.credential_revision == identity.credential_revision)

    -- Every bot is still the one of its row.
    unfoldable pub same_identities : List Identity → Dict SlotRecord → Bool
    same_identities [] slots = true
    same_identities (identity ∷ rest) slots =
        elim (lookup (slot_name identity.slot) slots) [
          | none ↦ false
          | some r ↦ same_bot identity r
        ]
        && same_identities rest slots

    -- What `resume` does with the session after it may have expired; a raise inside the session
    -- of the database writes nothing.
    unfoldable pub resume_rows :
        String → Text → ℕ → ℕ → List Identity → Rows → Service → Result (Unit {0}) × Service
    unfolding terminal_error same_identities resumed_rows put_rows
    resume_rows session_id code expires_at now identities rows s =
        elim (terminal_error rows.binding.state) [
          | some e ↦ (err e, put_rows session_id rows s)
          | none ↦
              if same_identities identities rows.slots
              then (
                ok tt,
                put_rows session_id (resumed_rows (digest session_id code) expires_at now rows) s,
              )
              else (err identity_changed, s)
        ]

    unfoldable pub resume :
        Result (List Identity)
        → Option UserFacingError
        → String
        → Text
        → ℕ
        → Call BindingSessionCreated
    unfolding require_prerequisites created_response resume_rows expire_if_needed tick
    resume verified credentials session_id code expires_in s =
        let (required, s') = require_prerequisites verified credentials s in
        let now = now_at s' in
        let opened = tick s' in
        elim required [
          | err e ↦ (err e, s')
          | ok identities ↦ elim (lookup session_id s'.sessions) [
            | none ↦ (err not_found, opened)
            | some rows ↦
                let rows' = record rows {
                  binding = expire_if_needed (now_at opened) rows.binding;
                } in
                let (resumed, s'') =
                  resume_rows session_id code (now + seconds expires_in) now identities rows'
                    (tick opened) in
                elim resumed [
                  | err e ↦ (err e, s'')
                  | ok _ ↦ created_response session_id identities code s''
                ]
          ]
        ]

  -- The loop of `cancel` over the slots.
  unfoldable pub release_binding : List String → String → World → World
  release_binding [] reason w = w
  release_binding (slot ∷ rest) reason w =
      let (w', lease) = Lease.get clock slot w in
      release_binding rest reason (
        if same_owner lease.row.owner control_plane_binding
        then (release clock slot lease.row.operation_id reason w').0
        else w')

  unfoldable pub cancel : String → String → Call BindingSession
  unfolding put_rows cancel_rows release_binding get tick
  cancel session_id reason s = elim (lookup session_id s.sessions) [
    | none ↦ (err not_found, tick s)
    | some rows ↦
        let s' = tick (put_rows session_id (cancel_rows (now_at s) rows) s) in
        get session_id (record s' { leases = release_binding all_slots reason s'.leases })
  ]

  -- `_set_state`
  unfoldable pub set_state : String → BindingState → String → Service → Service
  unfolding put_rows tick marked_rows
  set_state session_id state failure_code s = elim (lookup session_id s.sessions) [
    | none ↦ s
    | some rows ↦ tick (put_rows session_id (marked_rows (now_at s) state failure_code rows) s)
  ]

  unfoldable pub probe_state : BindingSession → Probe
  probe_state session = elim session.binding.state [
    | completed ↦ complete session
    | waiting_private ↦ requeue
    | waiting_group ↦ requeue
    | partially_bound ↦ requeue
    | _ ↦ fail "TELEGRAM_BINDING_RECOVERY_REQUIRES_REVIEW"
  ]

  unfoldable pub recovery_probe : String → Service → Probe × Service
  unfolding get probe_state
  recovery_probe session_id s =
      let (session, s') = get session_id s in
      (
        elim session [
          | err e ↦ fail "TELEGRAM_BINDING_RECOVERY_NOT_FOUND"
          | ok found ↦ probe_state found
        ],
        s',
      )
