-- ===== src/Lease/Runtime.antt =====
-- The leases of the runtimes, all or none: `acquire_runtime` and `release_runtime` of
-- control_plane/telegram/update_lease.py.
use mathlib.Core.List
use ai_agent_desktop.Base.{
  ℕ, ◌+◌, ◌*◌, String, ◌≡◌, ◌≢◌, ◌⊎◌, inl, inr, refl, true, false, Bool, Option, none, some, List,
  [], ◌∷◌, arith, eq_iff, eq_refl, str_eq, ◌&&◌, ◌||◌, ltb, contains, opt_str_eq, Bool-cases,
  Option-cases,
}
use ai_agent_desktop.Base.Dict.{Dict, lookup, lookup-insert}
use ai_agent_desktop.Errors.{UserFacingError, Result, ok, err}
use ai_agent_desktop.Lease.Model.{
  UpdateOwner, same_owner, LeaseRecord, Lease, World, get, acquire, release, rollback,
  acquire_slots, acquire_runtime, runtime_owner, acquired_row, expired_row, released_row,
  chosen_revision,
}

-- The row belongs to the operation.
abbrev pub is_held : String → Option LeaseRecord → Bool
is_held operation_id none = false
is_held operation_id (some r) = opt_str_eq r.operation_id (some operation_id)

-- The row belongs to the operation, for this owner.
abbrev pub is_owned : UpdateOwner → String → Option LeaseRecord → Bool
is_owned owner operation_id none = false
is_owned owner operation_id (some r) =
    same_owner r.owner owner && opt_str_eq r.operation_id (some operation_id)

module _ (clock : ℕ → ℕ) where
  -- Reading a slot gives no row to an operation.
  is_held-get :
      (slot s operation_id : String) (w : World)
      → is_held operation_id (lookup s (get clock slot w).0.table) ≡ true
      → is_held operation_id (lookup s w.table) ≡ true
  unfolding get
  is_held-get slot s operation_id w = elim (Option-cases (lookup slot w.table)) [
    | inl e ↦ ground arith
    | inr (r, e) ↦
        ground
          (arith, lookup-insert slot s (expired_row (clock (w.ticks + 1)) r) w.table, eq_iff slot s)
  ]

  -- Reading a slot leaves the other slots.
  pub lookup-get_other :
      (slot s : String) (w : World)
      → slot ≢ s
      → lookup s (get clock slot w).0.table ≡ lookup s w.table
  unfolding get
  lookup-get_other slot s w ne = elim (Option-cases (lookup slot w.table)) [
    | inl e ↦ ground arith
    | inr (r, e) ↦
        ground
          (arith, lookup-insert slot s (expired_row (clock (w.ticks + 1)) r) w.table, eq_iff slot s)
  ]

  is_held-acquire :
      (slot s : String) (owner : UpdateOwner) (operation_id : String) (revision ttl : ℕ) (w : World)
      → is_held operation_id
          (lookup s (acquire clock slot owner operation_id revision ttl w).1.table)
        ≡ true
      → (str_eq slot s ≡ true) ⊎ (is_held operation_id (lookup s w.table) ≡ true)
  unfolding acquire
  is_held-acquire slot s owner operation_id revision ttl w =
      let r = acquired_row owner operation_id revision ttl (clock w.ticks) (lookup slot w.table) in
      ground (arith, lookup-insert slot s r w.table)

  acquire_failed :
      (slot : String) (owner : UpdateOwner) (operation_id : String) (revision ttl : ℕ) (w : World)
      (e : UserFacingError)
      → (acquire clock slot owner operation_id revision ttl w).0 ≡ err e
      → (acquire clock slot owner operation_id revision ttl w).1.table ≡ w.table
  unfolding acquire
  acquire_failed slot owner operation_id revision ttl w e = ground arith

  is_held-release :
      (slot s operation_id reason : String) (w : World)
      → is_held operation_id (lookup s (release clock slot (some operation_id) reason w).0.table)
        ≡ true
      → (is_held operation_id (lookup s w.table) ≡ true) × (str_eq slot s ≡ false)
  unfolding release
  is_held-release slot s operation_id reason w = elim (Option-cases (lookup slot w.table)) [
    | inl e ↦ ground (
      arith,
      lookup-insert slot s (released_row reason (clock w.ticks) none) w.table,
      eq_iff slot s,
    )
    | inr (r, e) ↦ ground (
      arith,
      lookup-insert slot s (released_row reason (clock w.ticks) (some r)) w.table,
      eq_iff slot s,
    )
  ]

  is_held-rollback :
      (acquired : List String) (s operation_id : String) (w : World)
      → is_held operation_id (lookup s (rollback clock acquired operation_id w).table) ≡ true
      → (is_held operation_id (lookup s w.table) ≡ true) × (contains acquired s ≡ false)
  unfolding rollback
  is_held-rollback [] s operation_id w h = (h, refl)
  is_held-rollback (slot ∷ rest) s operation_id w h =
      let (kept, new) =
        is_held-rollback rest s operation_id
          (release clock slot (some operation_id) "runtime_acquire_rollback" w).0 h in
      let (was, ne) = is_held-release slot s operation_id "runtime_acquire_rollback" w kept in
      (was, ground arith)

  contains-append :
      (xs : List String) (slot s : String)
      → contains (List.◌++◌ xs (slot ∷ [])) s ≡ (contains xs s || str_eq slot s)
  contains-append [] slot s = ground arith
  contains-append (x ∷ xs) slot s = ground (arith, contains-append xs slot s)

  -- What the loop has to give back.
  abbrev Accounts : String → Dict LeaseRecord → List String → World → Type 0
  Accounts operation_id before acquired w =
      (s : String)
      → is_held operation_id (lookup s w.table) ≡ true
      → (contains acquired s ≡ true) ⊎ (is_held operation_id (lookup s before) ≡ true)

  rollback_clears :
      (operation_id : String) (before : Dict LeaseRecord) (acquired : List String) (w : World)
      → Accounts operation_id before acquired w
      → (s : String)
      → is_held operation_id (lookup s (rollback clock acquired operation_id w).table) ≡ true
      → is_held operation_id (lookup s before) ≡ true
  rollback_clears operation_id before acquired w account s h =
      let (was, new) = is_held-rollback acquired s operation_id w h in
      elim (account s was) [ inl mine ↦ cc | inr old ↦ old ]

  -- If the outcome is an error, the operation holds no slot that it did not hold before.
  abbrev Undone : String → Dict LeaseRecord → Result (Unit {0}) × World → Type 0
  Undone operation_id before (result, w) =
      (e : UserFacingError)
      → result ≡ err e
      → (s : String) → is_held operation_id (lookup s w.table) ≡ true
      → is_held operation_id (lookup s before) ≡ true

  Accounts-get :
      (operation_id slot : String) (before : Dict LeaseRecord) (acquired : List String) (w : World)
      → Accounts operation_id before acquired w
      → Accounts operation_id before acquired (get clock slot w).0
  Accounts-get operation_id slot before acquired w account s h =
      account s (is_held-get slot s operation_id w h)

  Accounts-acquire :
      (operation_id slot : String) (owner : UpdateOwner) (revision ttl : ℕ)
      (before : Dict LeaseRecord) (acquired : List String) (w : World)
      → Accounts operation_id before acquired w
      → Accounts operation_id before
          (List.◌++◌ acquired (slot ∷ []))
          (acquire clock slot owner operation_id revision ttl w).1
  Accounts-acquire operation_id slot owner revision ttl before acquired w account s h =
      elim (is_held-acquire slot s owner operation_id revision ttl w h) [
        | inl here ↦ inl (ground (arith, contains-append acquired slot s))
        | inr there ↦ ground (arith, contains-append acquired slot s, account s there)
      ]

  Accounts-failed :
      (operation_id slot : String) (owner : UpdateOwner) (revision ttl : ℕ)
      (before : Dict LeaseRecord) (acquired : List String) (w : World) (e : UserFacingError)
      → (acquire clock slot owner operation_id revision ttl w).0 ≡ err e
      → Accounts operation_id before acquired w
      → Accounts operation_id before acquired
          (acquire clock slot owner operation_id revision ttl w).1
  Accounts-failed operation_id slot owner revision ttl before acquired w e failed account s h =
      account s (rw (acquire_failed slot owner operation_id revision ttl w e failed) at h)

  acquire_slots-Undone-cons :
      (slot : String) (rest : List String) (operation_id : String) (revisions : Dict ℕ)
      (acquired : List String) (before : Dict LeaseRecord) (w : World)
      → ((w : World)
          → Accounts operation_id before (List.◌++◌ acquired (slot ∷ [])) w
          → Undone operation_id before
              (acquire_slots clock rest operation_id revisions (List.◌++◌ acquired (slot ∷ [])) w))
      → Accounts operation_id before acquired w
      → Undone operation_id before
          (acquire_slots clock (slot ∷ rest) operation_id revisions acquired w)
  unfolding acquire_slots
  acquire_slots-Undone-cons slot rest operation_id revisions acquired before w ih account =
      elim (Bool-cases (ltb revision 1)) [
        | inl unverified ↦
            rw unverified (λ e h. rollback_clears operation_id before acquired w' read)
        | inr verified ↦ rw verified (go attempt.0 refl)
      ]
    where
      w' : World
      w' = (get clock slot w).0

      revision : ℕ
      revision =
          chosen_revision (lookup slot revisions) (get clock slot w).1.row.credential_revision

      attempt : Result Lease × World
      attempt = acquire clock slot (runtime_owner slot) operation_id revision (24 * 60 * 60) w'

      read : Accounts operation_id before acquired w'
      read = Accounts-get operation_id slot before acquired w account

      next : Undone operation_id before (
          acquire_slots clock rest operation_id revisions
            (List.◌++◌ acquired (slot ∷ []))
            attempt.1)
      next = ih attempt.1 (
          Accounts-acquire operation_id slot (runtime_owner slot) revision (24 * 60 * 60) before
            acquired w' read)

      go :
          (result : Result Lease)
          → attempt.0 ≡ result
          → Undone operation_id before (elim result [
            | err e ↦ (err e, rollback clock acquired operation_id attempt.1)
            | ok lease' ↦
                acquire_slots clock rest operation_id revisions
                  (List.◌++◌ acquired (slot ∷ []))
                  attempt.1
          ])
      go (err x) q = λ e h. rollback_clears operation_id before acquired attempt.1 (
          Accounts-failed operation_id slot (runtime_owner slot) revision (24 * 60 * 60) before
            acquired w' x q read)
      go (ok x) q = next

  acquire_slots-Undone :
      (slots : List String) (operation_id : String) (revisions : Dict ℕ) (acquired : List String)
      (before : Dict LeaseRecord) (w : World)
      → Accounts operation_id before acquired w
      → Undone operation_id before (acquire_slots clock slots operation_id revisions acquired w)
  unfolding acquire_slots
  acquire_slots-Undone [] operation_id revisions acquired before w account = λ e h. cc
  acquire_slots-Undone (slot ∷ rest) operation_id revisions acquired before w account =
      acquire_slots-Undone-cons slot rest operation_id revisions acquired before w
        (acquire_slots-Undone rest operation_id revisions (List.◌++◌ acquired (slot ∷ [])) before)
        account

  -- When `acquire_runtime` raises, whatever slot made it fail and whatever the clock shows, the
  -- operation holds no slot of the table that it did not hold before.
  pub acquire_runtime_all_or_none :
      (slots : List String) (operation_id : String) (revisions : Dict ℕ) (w : World)
      (e : UserFacingError) (s : String)
      → (acquire_runtime clock slots operation_id revisions w).0 ≡ err e
      → is_held operation_id
          (lookup s (acquire_runtime clock slots operation_id revisions w).1.table)
        ≡ true
      → is_held operation_id (lookup s w.table) ≡ true
  unfolding acquire_runtime
  acquire_runtime_all_or_none slots operation_id revisions w e s raised =
      acquire_slots-Undone slots operation_id revisions [] w.table w (λ t h. inr h) e raised s

  pub is_owned-acquire :
      (slot s operation_id : String) (revision ttl : ℕ) (w : World) (lease : Lease)
      → (acquire clock slot (runtime_owner slot) operation_id revision ttl w).0 ≡ ok lease
      → (str_eq slot s ≡ true) ⊎ (is_owned (runtime_owner s) operation_id (lookup s w.table) ≡ true)
      → is_owned
          (runtime_owner s)
          operation_id
          (lookup s (acquire clock slot (runtime_owner slot) operation_id revision ttl w).1.table)
        ≡ true
  unfolding acquire acquired_row
  is_owned-acquire slot s operation_id revision ttl w lease h h' =
      let r =
        acquired_row (runtime_owner slot) operation_id revision ttl (clock w.ticks)
          (lookup slot w.table) in
      ground (arith, lookup-insert slot s r w.table, eq_iff slot s, eq_refl operation_id)
