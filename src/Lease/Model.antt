-- ===== src/Lease/Model.antt =====
-- The service of control_plane/telegram/update_lease.py. The table of leases is a dictionary from
-- slots to records, times are microseconds, and `clock n` is what the n-th call of `utcnow` shows.
use Prim.Native.String.{◌++◌}
use mathlib.Core.List
use ai_agent_desktop.Base.{
  ℕ, ◌+◌, ◌*◌, String, Bool, true, false, not, ◌&&◌, ◌||◌, Option, none, some, List, [], ◌∷◌, ltb,
  leb, ◌==◌, str_eq, opt_str_eq, if◌then◌else◌,
}
use ai_agent_desktop.Base.Dict.{Dict, lookup, insert}
use ai_agent_desktop.Errors.{UserFacingError, user_error, Result, ok, err}

pub data UpdateOwner : Type 0 where
  nobody control_plane_binding hermes_runtime cc_connect_runtime external conflict unknown :
      UpdateOwner

abbrev pub same_owner : UpdateOwner → UpdateOwner → Bool
same_owner nobody nobody = true
same_owner control_plane_binding control_plane_binding = true
same_owner hermes_runtime hermes_runtime = true
same_owner cc_connect_runtime cc_connect_runtime = true
same_owner external external = true
same_owner conflict conflict = true
same_owner unknown unknown = true
same_owner _ _ = false

-- `TelegramUpdateLeaseRecord`, a row of the table; its key is the slot.
pub record LeaseRecord : Type 0 where
  pub owner : UpdateOwner
  pub operation_id : Option String
  pub credential_revision : ℕ
  pub acquired_at : Option ℕ
  pub expires_at : Option ℕ
  pub heartbeat_at : Option ℕ
  pub offset : ℕ
  pub release_reason : Option String
  pub revision : ℕ

-- `TelegramUpdateLease`, what the service returns: the slot and a copy of its row.
pub record Lease : Type 0 where
  pub bot_slot : String
  pub row : LeaseRecord

-- The lease of a slot that has no row.
abbrev pub vacant : LeaseRecord
vacant = record {
  owner = nobody;
  operation_id = none;
  credential_revision = 0;
  acquired_at = none;
  expires_at = none;
  heartbeat_at = none;
  offset = 0;
  release_reason = none;
  revision = 0;
}

pub record World : Type 0 where
  pub table : Dict LeaseRecord
  pub ticks : ℕ

-- A method that may raise; a raise rolls the session back, so it writes nothing.
abbrev pub Method : Type 0 → Type 0
Method A = World → Result A × World

abbrev pub seconds : ℕ → ℕ
seconds n = n * 1000000

save : String → LeaseRecord → ℕ → World → World
save slot r ticks w = record { table = insert slot r w.table; ticks = ticks }

-- A row with an owner and a time of expiry after `now`.
unfoldable pub is_active : ℕ → LeaseRecord → Bool
is_active now r =
    not (same_owner r.owner nobody) && elim r.expires_at [ none ↦ false | some t ↦ ltb now t ]

pub lease_conflict : String → UserFacingError
lease_conflict slot =
    user_error "TELEGRAM_UPDATE_LEASE_CONFLICT"
      ("Telegram bot slot " ++ slot ++ " already has an active update owner.") true
      ("wait_for_lease_release" ∷ "inspect_update_owner" ∷ [])

-- The row that `acquire` writes.
unfoldable pub acquired_row : UpdateOwner → String → ℕ → ℕ → ℕ → Option LeaseRecord → LeaseRecord
acquired_row owner operation_id credential_revision ttl now none = record {
  owner = owner;
  operation_id = some operation_id;
  credential_revision = credential_revision;
  acquired_at = some now;
  expires_at = some (now + seconds ttl);
  heartbeat_at = some now;
  offset = 0;
  release_reason = none;
  revision = 1;
}
acquired_row owner operation_id credential_revision ttl now (some r) = record {
  owner = owner;
  operation_id = some operation_id;
  credential_revision = credential_revision;
  acquired_at = some now;
  expires_at = some (now + seconds ttl);
  heartbeat_at = some now;
  offset = if r.credential_revision == credential_revision then r.offset else 0;
  release_reason = none;
  revision = r.revision + 1;
}

-- The row is active and another owner's or another operation's.
unfoldable pub held_by_other : UpdateOwner → String → ℕ → Option LeaseRecord → Bool
unfolding is_active
held_by_other owner operation_id now none = false
held_by_other owner operation_id now (some r) =
    is_active now r
    && (not (same_owner r.owner owner) || not (opt_str_eq r.operation_id (some operation_id)))

abbrev pub lease_lost : UserFacingError
lease_lost =
    user_error "TELEGRAM_UPDATE_LEASE_LOST" ("Telegram update lease was lost during polling.") true
      ("restart_binding_poll" ∷ [])

advance_offset : Option ℕ → ℕ → ℕ
advance_offset none offset = offset
advance_offset (some next) offset = if ltb offset next then next else offset

-- The row that `heartbeat` writes.
unfoldable pub beat_row : Option ℕ → ℕ → ℕ → LeaseRecord → LeaseRecord
unfolding advance_offset
beat_row next_offset ttl now r = record r {
  offset = advance_offset next_offset r.offset;
  heartbeat_at = some now;
  expires_at = some (now + seconds ttl);
  revision = r.revision + 1;
}

-- The row that `get` writes when the time has run out.
unfoldable pub expired_row : ℕ → LeaseRecord → LeaseRecord
expired_row now r = record r {
  owner = nobody;
  operation_id = none;
  expires_at = none;
  heartbeat_at = some now;
  release_reason = some "lease_expired";
  revision = r.revision + 1;
}

-- The rows that `release` writes.
unfoldable pub released_row : String → ℕ → Option LeaseRecord → LeaseRecord
released_row reason now none = record vacant { release_reason = some reason; revision = 1 }
released_row reason now (some r) = record r {
  owner = nobody;
  operation_id = none;
  expires_at = none;
  heartbeat_at = some now;
  release_reason = some reason;
  revision = r.revision + 1;
}

abbrev pub may_release : Option String → Option String → Bool
may_release none held = true
may_release (some operation_id) held = opt_str_eq held (some operation_id)

abbrev pub runtime_owner : String → UpdateOwner
runtime_owner slot = if str_eq slot "hermes" then hermes_runtime else cc_connect_runtime

identity_not_verified : String → UserFacingError
identity_not_verified slot =
    user_error "TELEGRAM_IDENTITY_NOT_VERIFIED"
      ("Telegram bot slot " ++ slot ++ " has no verified credential revision.") false
      ("verify_bot_identity" ∷ [])

-- `(credential_revisions or {}).get(slot) or lease.credential_revision`
abbrev pub chosen_revision : Option ℕ → ℕ → ℕ
chosen_revision none held = held
chosen_revision (some given) held = if given == 0 then held else given

module _ (clock : ℕ → ℕ) where
  expire : String → LeaseRecord → World → World × Lease
  unfolding save expired_row
  expire slot r w =
      let r' = expired_row (clock (w.ticks + 1)) r in
      (save slot r' (w.ticks + 2) w, record { bot_slot = slot; row = r' })

  -- The clock is read only for an owned row with a time of expiry.
  get_row : String → Option LeaseRecord → World → World × Lease
  unfolding expire
  get_row slot none w = (w, record { bot_slot = slot; row = vacant })
  get_row slot (some r) w =
      if same_owner r.owner nobody
      then (w, record { bot_slot = slot; row = r })
      else elim r.expires_at [
        | none ↦ (w, record { bot_slot = slot; row = r })
        | some t ↦
            if leb t (clock w.ticks)
            then expire slot r w
            else (record w { ticks = w.ticks + 1 }, record { bot_slot = slot; row = r })
      ]

  unfoldable pub get : String → World → World × Lease
  unfolding get_row
  get slot w = get_row slot (lookup slot w.table) w

  unfoldable pub acquire : String → UpdateOwner → String → ℕ → ℕ → Method Lease
  unfolding held_by_other acquired_row save lease_conflict
  acquire slot owner operation_id credential_revision ttl w =
      let now = clock w.ticks in
      let row = lookup slot w.table in
      let r = acquired_row owner operation_id credential_revision ttl now row in
      if held_by_other owner operation_id now row
      then (err (lease_conflict slot), record w { ticks = w.ticks + 1 })
      else (ok (record { bot_slot = slot; row = r }), save slot r (w.ticks + 1) w)

  heartbeat_row : String → String → Option ℕ → ℕ → Option LeaseRecord → Method Lease
  unfolding save beat_row
  heartbeat_row slot operation_id next_offset ttl none w =
      (err lease_lost, record w { ticks = w.ticks + 1 })
  heartbeat_row slot operation_id next_offset ttl (some r) w =
      let r' = beat_row next_offset ttl (clock w.ticks) r in
      if opt_str_eq r.operation_id (some operation_id)
      then (ok (record { bot_slot = slot; row = r' }), save slot r' (w.ticks + 1) w)
      else (err lease_lost, record w { ticks = w.ticks + 1 })

  unfoldable pub heartbeat : String → String → Option ℕ → ℕ → Method Lease
  unfolding heartbeat_row
  heartbeat slot operation_id next_offset ttl w =
      heartbeat_row slot operation_id next_offset ttl (lookup slot w.table) w

  release_row : String → Option String → String → Option LeaseRecord → World → World × Lease
  unfolding save released_row
  release_row slot operation_id reason none w =
      let r' = released_row reason (clock w.ticks) none in
      (save slot r' w.ticks w, record { bot_slot = slot; row = r' })
  release_row slot operation_id reason (some r) w =
      let r' = released_row reason (clock w.ticks) (some r) in
      if may_release operation_id r.operation_id
      then (save slot r' (w.ticks + 1) w, record { bot_slot = slot; row = r' })
      else (w, record { bot_slot = slot; row = r })

  unfoldable pub release : String → Option String → String → World → World × Lease
  unfolding release_row
  release slot operation_id reason w = release_row slot operation_id reason (lookup slot w.table) w

  unfoldable pub rollback : List String → String → World → World
  rollback [] operation_id w = w
  rollback (slot ∷ rest) operation_id w =
      rollback rest operation_id (release slot (some operation_id) "runtime_acquire_rollback" w).0

  -- The loop of `acquire_runtime` with its handler, over the list `acquired`.
  unfoldable pub acquire_slots : List String → String → Dict ℕ → List String → Method (Unit {0})
  unfolding identity_not_verified
  acquire_slots [] operation_id revisions acquired w = (ok tt, w)
  acquire_slots (slot ∷ rest) operation_id revisions acquired w =
      let (w', lease) = get slot w in
      let revision = chosen_revision (lookup slot revisions) lease.row.credential_revision in
      let attempt = acquire slot (runtime_owner slot) operation_id revision (24 * 60 * 60) w' in
      let go =
        acquire_slots rest operation_id revisions (List.◌++◌ acquired (slot ∷ [])) attempt.1 in
      if ltb revision 1
      then (err (identity_not_verified slot), rollback acquired operation_id w')
      else elim attempt.0 [
        | err e ↦ (err e, rollback acquired operation_id attempt.1)
        | ok lease' ↦ go
      ]

  unfoldable pub acquire_runtime : List String → String → Dict ℕ → Method (Unit {0})
  unfolding acquire_slots
  acquire_runtime slots operation_id revisions w = acquire_slots slots operation_id revisions [] w

  unfoldable pub release_runtime : List String → String → World → World
  release_runtime [] reason w = w
  release_runtime (slot ∷ rest) reason w =
      let (w', lease) = get slot w in
      release_runtime rest reason (
        if same_owner lease.row.owner (runtime_owner slot)
        then (release slot lease.row.operation_id reason w').0
        else w')
