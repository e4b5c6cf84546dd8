-- ===== src/Lease/Freed.antt =====
-- What `release_runtime` of control_plane/telegram/update_lease.py leaves in the table.
use ai_agent_desktop.Base.{
  ℕ, ◌+◌, String, ◌≡◌, ◌⊎◌, inl, inr, refl, subst, true, false, Option, none, some, List, [], ◌∷◌,
  arith, eq_iff, eq_refl, if◌then◌else◌, str_eq, contains, opt_str_eq, Bool-cases, Option-cases,
}
use ai_agent_desktop.Base.Dict.{lookup, lookup-insert}
use ai_agent_desktop.Lease.Model.{
  same_owner, LeaseRecord, World, get, release, release_runtime, runtime_owner, expired_row,
  released_row, may_release, vacant,
}
use ai_agent_desktop.Lease.Granted.{runtime_holds, freed-get, freed-release}

opt_str_eq_refl : (a : Option String) → opt_str_eq a a ≡ true
opt_str_eq_refl none = refl
opt_str_eq_refl (some a) = eq_refl a

may_release_own : (a : Option String) → may_release a a ≡ true
may_release_own none = refl
may_release_own (some a) = eq_refl a

module _ (clock : ℕ → ℕ) where
  -- What a read returns is what the table then holds.
  get-coherent :
      (slot : String) (w : World)
      → (lookup slot (get clock slot w).0.table ≡ some (get clock slot w).1.row)
        ⊎ ((lookup slot (get clock slot w).0.table ≡ none) × ((get clock slot w).1.row ≡ vacant))
  unfolding get
  get-coherent slot w = elim (Option-cases (lookup slot w.table)) [
    | inl e ↦ inr (ground arith, ground arith)
    | inr (r, e) ↦ inl (
        ground (
          arith,
          lookup-insert slot slot (expired_row (clock (w.ticks + 1)) r) w.table,
          eq_refl slot,
        ))
  ]

  -- A release by the operation that holds the row clears it.
  freed-own :
      (slot reason : String) (r : LeaseRecord) (w : World)
      → lookup slot w.table ≡ some r
      → runtime_holds slot (lookup slot (release clock slot r.operation_id reason w).0.table)
        ≡ false
  unfolding release released_row
  freed-own slot reason r w e = ground (
    arith,
    lookup-insert slot slot (released_row reason (clock w.ticks) (some r)) w.table,
    eq_refl slot,
    may_release_own r.operation_id,
  )

  abbrev step_world : String → String → World → World
  step_world slot reason w =
      let (w', lease) = get clock slot w in
      if same_owner lease.row.owner (runtime_owner slot)
      then (release clock slot lease.row.operation_id reason w').0
      else w'

  freed-here :
      (slot reason : String) (w : World)
      → runtime_holds slot (lookup slot (step_world slot reason w).table) ≡ false
  freed-here slot reason w = elim (get-coherent slot w) [
    | inl e ↦ ground (arith, freed-own slot reason (get clock slot w).1.row (get clock slot w).0)
    | inr (e, v) ↦ ground arith
  ]

  freed-there :
      (slot s reason : String) (w : World)
      → runtime_holds s (lookup s w.table) ≡ false
      → runtime_holds s (lookup s (step_world slot reason w).table) ≡ false
  freed-there slot s reason w h = ground (
    arith,
    freed-get clock slot s w,
    freed-release clock slot s reason (get clock slot w).1.row.operation_id (get clock slot w).0,
  )

  -- After `release_runtime`, no slot of the list is held by the runtime that the slot is for, and
  -- no slot that was free of its runtime has become held by it.
  pub release_runtime_frees :
      (slots : List String) (reason : String) (w : World) (s : String)
      → (contains slots s ≡ true) ⊎ (runtime_holds s (lookup s w.table) ≡ false)
      → runtime_holds s (lookup s (release_runtime clock slots reason w).table) ≡ false
  unfolding release_runtime
  release_runtime_frees [] reason w s h = elim h [ inl e ↦ cc | inr free ↦ free ]
  release_runtime_frees (slot ∷ rest) reason w s h =
      release_runtime_frees rest reason (step_world slot reason w) s (passed h)
    where
      passed :
          (contains (slot ∷ rest) s ≡ true) ⊎ (runtime_holds s (lookup s w.table) ≡ false)
          → (contains rest s ≡ true)
            ⊎ (runtime_holds s (lookup s (step_world slot reason w).table) ≡ false)
      passed (inr free) = inr (freed-there slot s reason w free)
      passed (inl there) = elim (Bool-cases (str_eq slot s)) [
        | inl e ↦ inr (
            subst (λ t. runtime_holds t (lookup t (step_world slot reason w).table) ≡ false)
              ((eq_iff slot s).0 e) (freed-here slot reason w))
        | inr ne ↦ inl (ground arith)
      ]
