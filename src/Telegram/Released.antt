-- ===== src/Telegram/Released.antt =====
-- What a poll of control_plane/telegram/binding_service.py leaves of its lease, and which updates it
-- has acknowledged.
use ai_agent_desktop.Base.{
  ℕ, ◌+◌, ◌<◌, ◌≤◌, suc, String, Bool, false, Option, none, some, List, [], ◌∷◌, ◌≡◌, ◌⊎◌, inl, inr,
  refl, sym, subst, ap, arith, All, opt_str_eq, Bool-cases, Option-cases, contains,
}
use ai_agent_desktop.Base.Dict.{Dict, lookup, lookup-insert_self}
use ai_agent_desktop.Errors.{UserFacingError, Result, ok, err}
use ai_agent_desktop.Lease.Model.{
  LeaseRecord, World, Lease, control_plane_binding, acquire, heartbeat, release, released_row,
  beat_row, held_by_other, may_release,
}
use ai_agent_desktop.Telegram.Rows.{Text}
use ai_agent_desktop.Telegram.Payload.{Update}
use ai_agent_desktop.Telegram.Session.{Service, all_slots}
use ai_agent_desktop.Telegram.Service.{put_rows, tick, get}
use ai_agent_desktop.Telegram.Poll.{
  Environment, is_settled, lease_seconds, process, serve_updates, hold_and_release, lease_and_hold,
  poll,
}

abbrev pub is_held : String → Option LeaseRecord → Bool
is_held operation_id none = false
is_held operation_id (some r) = opt_str_eq r.operation_id (some operation_id)

Result-cases :
    {A : Type 0} (r : Result A) → ((a : A) × (r ≡ ok a)) ⊎ ((e : UserFacingError) × (r ≡ err e))
Result-cases (ok a) = inl (a, refl)
Result-cases (err e) = inr (e, refl)

-- The operation holds no lease of the slot.
abbrev pub IsFree : String → String → Dict LeaseRecord → Type 0
IsFree slot operation_id table = is_held operation_id (lookup slot table) ≡ false

-- The offset from which the slot's updates are fetched next.
abbrev pub offset_of : Option LeaseRecord → ℕ
offset_of none = 0
offset_of (some r) = r.offset

-- The slot's offset is past all the updates.
abbrev pub AllBefore : String → List Update → Service → Type 0
AllBefore slot updates s =
    All (λ update. update.update_id < offset_of (lookup slot s.leases.table)) updates

module _ (clock : ℕ → ℕ) where
  release-IsFree :
      (slot operation_id reason : String) (w : World)
      → IsFree slot operation_id (release clock slot (some operation_id) reason w).0.table
  unfolding release released_row
  release-IsFree slot operation_id reason w = elim (Option-cases (lookup slot w.table)) [
    | inl e ↦ rw (release, e) (rw lookup-insert_self refl)
    | inr (r, e) ↦ elim (Bool-cases (may_release (some operation_id) r.operation_id)) [
      | inl m ↦ rw (release, e, m) (rw lookup-insert_self refl)
      | inr m ↦ rw (release, e, m) (rw e m)
    ]
  ]

  -- A refusal writes no row.
  acquire_refused :
      (slot operation_id : String) (revision ttl : ℕ) (w : World) (e : UserFacingError)
      → (acquire clock slot control_plane_binding operation_id revision ttl w).0 ≡ err e
      → (acquire clock slot control_plane_binding operation_id revision ttl w).1.table ≡ w.table
  unfolding acquire
  acquire_refused slot operation_id revision ttl w e h =
      elim (Bool-cases
        (held_by_other control_plane_binding operation_id (clock w.ticks) (lookup slot w.table))) [
          | inl f ↦ rw (acquire, f) refl
          | inr f ↦ ground (arith, f, h)
        ]

  -- The heartbeat moves the offset up to the one it is given.
  beat_offset :
      (slot operation_id : String) (next ttl : ℕ) (w : World) (lease : Lease)
      → (heartbeat clock slot operation_id (some next) ttl w).0 ≡ ok lease
      → (next
          ≤ offset_of (lookup slot (heartbeat clock slot operation_id (some next) ttl w).1.table))
        × (offset_of (lookup slot w.table)
            ≤ offset_of (lookup slot (heartbeat clock slot operation_id (some next) ttl w).1.table))
  unfolding heartbeat beat_row
  beat_offset slot operation_id next ttl w lease h = elim (Option-cases (lookup slot w.table)) [
    | inl e ↦ ground (arith, e, h)
    | inr (r, e) ↦ elim (Bool-cases (opt_str_eq r.operation_id (some operation_id))) [
      | inl m ↦ rw (heartbeat, e, m) (rw lookup-insert_self (ground arith, ground arith))
      | inr m ↦ ground (arith, e, m, h)
    ]
  ]

  get_table :
      (session_id : String) (s : Service) → (get clock session_id s).1.leases.table ≡ s.leases.table
  unfolding get put_rows tick
  get_table session_id s = ground arith

module _ (clock : ℕ → ℕ) (casefold : Text → Text) (digest : String → Text → String) where
  process_table :
      (session_id slot : String) (update : Update) (s : Service)
      → (process clock casefold digest session_id slot update s).leases.table ≡ s.leases.table
  unfolding process put_rows tick
  process_table session_id slot update s = ground arith

  -- When the loop over the updates raises nothing, the slot's lease has an offset past every one of
  -- them and not before the one it had, so none of them is fetched again.
  pub serve_updates-acknowledges :
      (env : Environment) (operation_id session_id slot : String) (timeout n : ℕ)
      (updates : List Update) (s : Service)
      → (serve_updates clock casefold digest env operation_id session_id slot timeout n updates s).0
        ≡ none
      → (offset_of (lookup slot s.leases.table)
          ≤ offset_of (
              lookup slot
                (serve_updates clock casefold digest env operation_id session_id slot timeout n
                  updates s).1.leases.table))
        × AllBefore slot updates
            (serve_updates clock casefold digest env operation_id session_id slot timeout n updates
              s).1
  unfolding serve_updates
  serve_updates-acknowledges env operation_id session_id slot timeout n [] s h = (ground arith, tt)
  serve_updates-acknowledges env operation_id session_id slot timeout n (update ∷ rest) s h =
      elim (Option-cases (env.checkpoint n)) [
        | inr (e, c) ↦ ground (arith, c, h)
        | inl c ↦
            let s' = process clock casefold digest session_id slot update s in
            let beat =
              heartbeat clock slot operation_id (some (update.update_id + 1))
                (lease_seconds timeout) s'.leases in
            let s'' = record s' { leases = beat.1 } in
            let same =
              ap (λ t. offset_of (lookup slot t)) (process_table session_id slot update s) in
            elim (Result-cases beat.0) [
              | inr (e, f) ↦ ground (arith, c, f, h)
              | inl (lease, f) ↦
                  let (past, up) =
                    beat_offset clock slot operation_id (update.update_id + 1)
                      (lease_seconds timeout) s'.leases lease f in
                  let later =
                    serve_updates-acknowledges env operation_id session_id slot timeout (suc n) rest
                      s'' (ground (arith, c, f, h)) in
                  let step : serve_updates clock casefold digest env operation_id session_id slot
                        timeout n (update ∷ rest) s
                      ≡ serve_updates clock casefold digest env operation_id session_id slot timeout
                          (suc n) rest s'' =
                    rw (serve_updates, c, f) refl in
                  subst
                    (λ p.
                      (offset_of (lookup slot s.leases.table)
                        ≤ offset_of (lookup slot p.1.leases.table))
                      × AllBefore slot (update ∷ rest) p.1)
                    (sym step)
                    (omega (arith, same, up, later.0), (omega (arith, past, later.0), later.1))
            ]
      ]

  hold_and_release-IsFree :
      (env : Environment) (operation_id session_id slot : String) (timeout : ℕ) (lease : Lease)
      (s : Service)
      → IsFree slot operation_id
          (hold_and_release clock casefold digest env operation_id session_id slot timeout lease
            s).1.leases.table
  unfolding hold_and_release
  hold_and_release-IsFree env operation_id session_id slot timeout lease s =
      release-IsFree clock slot operation_id "binding_poll_finished" _

  lease_and_hold-IsFree :
      (env : Environment) (operation_id session_id slot : String) (timeout : ℕ) (s : Service)
      → ((lease_and_hold clock casefold digest env operation_id session_id slot timeout
            s).1.leases.table
          ≡ s.leases.table)
        ⊎ IsFree slot operation_id
            (lease_and_hold clock casefold digest env operation_id session_id slot timeout
              s).1.leases.table
  unfolding lease_and_hold
  lease_and_hold-IsFree env operation_id session_id slot timeout s =
      elim (Option-cases env.identity) [
        | inl e ↦ rw (lease_and_hold, e) (inl refl)
        | inr (identity, e) ↦ elim (Result-cases env.metadata_revision) [
          | inr (error, f) ↦ rw (lease_and_hold, e, f) (inl refl)
          | inl (revision, f) ↦
              let refused =
                acquire_refused clock slot operation_id revision (lease_seconds timeout) s.leases in
              elim (Result-cases
                (acquire clock slot control_plane_binding operation_id revision
                  (lease_seconds timeout) s.leases).0) [
                    | inr (error, g) ↦ rw (lease_and_hold, e, f, g) (inl (refused error g))
                    | inl (lease, g) ↦
                        rw (lease_and_hold, e, f, g)
                          (inr (
                            hold_and_release-IsFree env operation_id session_id slot timeout lease
                              _))
                  ]
        ]
      ]

  -- A poll leaves the table of leases as it was or leaves its operation no lease of the slot,
  -- whatever the checkpoints, the webhook, the updates and the sessions do.
  pub poll-IsFree :
      (env : Environment) (operation_id session_id slot : String) (timeout : ℕ) (s : Service)
      → ((poll clock casefold digest env operation_id session_id slot timeout s).1.leases.table
          ≡ s.leases.table)
        ⊎ IsFree slot operation_id
            (poll clock casefold digest env operation_id session_id slot timeout s).1.leases.table
  unfolding poll
  poll-IsFree env operation_id session_id slot timeout s =
      let same = get_table clock session_id s in
      let ended =
        (lease_and_hold clock casefold digest env operation_id session_id slot timeout
          (get clock session_id s).1).1 in
      elim (Bool-cases (contains all_slots slot)) [
        | inr e ↦ rw (poll, e) (inl refl)
        | inl e ↦ elim (Result-cases (get clock session_id s).0) [
          | inr (error, f) ↦ rw (poll, e, f) (inl same)
          | inl (found, f) ↦ elim (Bool-cases (is_settled found.binding.state)) [
            | inl g ↦ rw (poll, e, f, g) (inl same)
            | inr g ↦
                rw (poll, e, f, g)
                  (subst
                    (λ t. (ended.leases.table ≡ t) ⊎ IsFree slot operation_id ended.leases.table)
                    same
                    (lease_and_hold-IsFree env operation_id session_id slot timeout
                      (get clock session_id s).1))
          ]
        ]
      ]
