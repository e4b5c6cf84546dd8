-- ===== src/Lease/Exclusion.antt =====
-- Two holders, and what each request may do to a row, in control_plane/telegram/update_lease.py.
use ai_agent_desktop.Base.{
  ℕ, ◌+◌, ◌<◌, String, ◌≡◌, ◌≢◌, ap, ◌∙◌, true, Option, none, some, arith, eq_iff, eq_refl,
}
use ai_agent_desktop.Base.Dict.{lookup, lookup-insert}
use ai_agent_desktop.Errors.{ok, err}
use ai_agent_desktop.Lease.Model.{
  UpdateOwner, nobody, LeaseRecord, Lease, World, seconds, acquired_row, held_by_other, acquire,
  lease_conflict,
}

-- A row that was acquired is active until its time runs out, against any other operation.
acquired-held_by_other :
    (owner owner' : UpdateOwner) (operation_id operation_id' : String) (revision ttl now now' : ℕ)
    (row : Option LeaseRecord)
    → owner ≢ nobody
    → operation_id ≢ operation_id'
    → now' < now + seconds ttl
    → held_by_other owner' operation_id' now'
        (some (acquired_row owner operation_id revision ttl now row))
      ≡ true
unfolding held_by_other acquired_row
acquired-held_by_other owner owner' operation_id operation_id' revision ttl now now' none h ne lt =
    ground (arith, eq_iff operation_id operation_id')
acquired-held_by_other owner owner' operation_id operation_id' revision ttl now now' (some r) h ne
      lt =
    ground (arith, eq_iff operation_id operation_id')

module _ (clock : ℕ → ℕ) where
  acquire_ok :
      (slot : String) (owner : UpdateOwner) (operation_id : String) (revision ttl : ℕ) (w : World)
      (lease : Lease)
      → (acquire clock slot owner operation_id revision ttl w).0 ≡ ok lease
      → lookup slot (acquire clock slot owner operation_id revision ttl w).1.table
        ≡ some (acquired_row owner operation_id revision ttl (clock w.ticks) (lookup slot w.table))
  unfolding acquire
  acquire_ok slot owner operation_id revision ttl w lease h =
      let r = acquired_row owner operation_id revision ttl (clock w.ticks) (lookup slot w.table) in
      ground (arith, lookup-insert slot slot r w.table, eq_refl slot)

  acquire_refused :
      (slot : String) (owner : UpdateOwner) (operation_id : String) (revision ttl : ℕ) (w : World)
      → held_by_other owner operation_id (clock w.ticks) (lookup slot w.table) ≡ true
      → acquire clock slot owner operation_id revision ttl w
        ≡ (err (lease_conflict slot), record w { ticks = w.ticks + 1 })
  unfolding acquire
  acquire_refused slot owner operation_id revision ttl w h = rw h

  -- After an operation has acquired a slot, another operation that asks while the time to live is
  -- not over, on the same table, is refused with the conflict error, and the table stays as it is.
  pub acquire_excludes :
      (slot : String) (owner owner' : UpdateOwner) (operation_id operation_id' : String)
      (revision revision' ttl ttl' : ℕ) (w w' : World) (lease : Lease)
      → owner ≢ nobody
      → operation_id ≢ operation_id'
      → (acquire clock slot owner operation_id revision ttl w).0 ≡ ok lease
      → w'.table ≡ (acquire clock slot owner operation_id revision ttl w).1.table
      → clock w'.ticks < clock w.ticks + seconds ttl
      → acquire clock slot owner' operation_id' revision' ttl' w'
        ≡ (err (lease_conflict slot), record w' { ticks = w'.ticks + 1 })
  acquire_excludes slot owner owner' operation_id operation_id' revision revision' ttl ttl' w w'
        lease h ne done same lt =
      let stored =
        ap (lookup slot) same ∙ acquire_ok slot owner operation_id revision ttl w lease done in
      acquire_refused slot owner' operation_id' revision' ttl' w' (
        rw stored (
          acquired-held_by_other owner owner' operation_id operation_id' revision ttl
            (clock w.ticks) (clock w'.ticks) (lookup slot w.table) h ne lt))
