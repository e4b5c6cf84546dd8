-- ===== src/Lease/Granted.antt =====
-- What `acquire_runtime` and `release_runtime` of control_plane/telegram/update_lease.py leave in
-- the table when they succeed.
use ai_agent_desktop.Base.{
  ℕ, ◌+◌, ◌*◌, String, ◌≡◌, ◌⊎◌, inl, inr, refl, true, false, Bool, Option, none, some, List, [],
  ◌∷◌, arith, eq_iff, str_eq, ltb, contains, Bool-cases, Option-cases, ◌++◌,
}
use ai_agent_desktop.Base.Dict.{Dict, lookup, lookup-insert}
use ai_agent_desktop.Errors.{Result, ok, err}
use ai_agent_desktop.Lease.Model.{
  same_owner, LeaseRecord, Lease, World, get, acquire, release, acquire_slots, acquire_runtime,
  runtime_owner, rollback, expired_row, released_row, chosen_revision,
}
use ai_agent_desktop.Lease.Runtime.{is_owned, is_owned-acquire, lookup-get_other}

-- The runtime of the slot holds it, for some operation.
abbrev pub runtime_holds : String → Option LeaseRecord → Bool
runtime_holds s none = false
runtime_holds s (some r) = same_owner r.owner (runtime_owner s)

module _ (clock : ℕ → ℕ) where
  -- The runtime that the slot is for holds it, for the operation.
  abbrev Granted : String → Dict LeaseRecord → String → Type 0
  Granted operation_id table s = is_owned (runtime_owner s) operation_id (lookup s table) ≡ true

  -- After a success the slots of the list are granted, and those that were granted before.
  abbrev Grants : List String → String → World → Result (Unit {0}) × World → Type 0
  Grants slots operation_id w (result, w') =
      result ≡ ok tt
      → (s : String) → (contains slots s ≡ true) ⊎ Granted operation_id w.table s
      → Granted operation_id w'.table s

  Granted-step :
      (slot s operation_id : String) (revision ttl : ℕ) (w : World) (lease : Lease)
      → let w' = (get clock slot w).0 in
        (acquire clock slot (runtime_owner slot) operation_id revision ttl w').0 ≡ ok lease
        → (str_eq slot s ≡ true) ⊎ Granted operation_id w.table s
        → Granted operation_id
            (acquire clock slot (runtime_owner slot) operation_id revision ttl w').1.table
            s
  Granted-step slot s operation_id revision ttl w lease done (inl e) =
      is_owned-acquire clock slot s operation_id revision ttl (get clock slot w).0 lease done
        (inl e)
  Granted-step slot s operation_id revision ttl w lease done (inr held) =
      is_owned-acquire clock slot s operation_id revision ttl (get clock slot w).0 lease done
        (elim (Bool-cases (str_eq slot s)) [
          | inl e ↦ inl e
          | inr ne ↦ inr (rw (lookup-get_other clock slot s w (ground (arith, eq_iff slot s))) held)
        ])

  first_or_held :
      (slot s : String) (rest : List String) (operation_id : String) (w : World)
      (table : Dict LeaseRecord)
      → (contains (slot ∷ rest) s ≡ true) ⊎ Granted operation_id w.table s
      → ((str_eq slot s ≡ true) ⊎ Granted operation_id w.table s → Granted operation_id table s)
      → (contains rest s ≡ true) ⊎ Granted operation_id table s
  first_or_held slot s rest operation_id w table (inr held) step = inr (step (inr held))
  first_or_held slot s rest operation_id w table (inl there) step =
      elim (Bool-cases (str_eq slot s)) [ inl e ↦ inr (step (inl e)) | inr ne ↦ inl (ground arith) ]

  Grants-cons :
      (slot : String) (rest : List String) (operation_id : String) (revisions : Dict ℕ)
      (acquired : List String) (w : World)
      → ((w : World)
          → Grants rest operation_id w
              (acquire_slots clock rest operation_id revisions (acquired ++ slot ∷ []) w))
      → Grants
          (slot ∷ rest)
          operation_id
          w
          (acquire_slots clock (slot ∷ rest) operation_id revisions acquired w)
  unfolding acquire_slots
  Grants-cons slot rest operation_id revisions acquired w ih = elim (Bool-cases (ltb revision 1)) [
    | inl unverified ↦ rw unverified (λ h. cc)
    | inr verified ↦ rw verified (go attempt.0 refl)
  ]
    where
      revision : ℕ
      revision =
          chosen_revision (lookup slot revisions) (get clock slot w).1.row.credential_revision

      attempt : Result Lease × World
      attempt =
          acquire clock slot (runtime_owner slot) operation_id revision (24 * 60 * 60)
            (get clock slot w).0

      go :
          (result : Result Lease)
          → attempt.0 ≡ result
          → Grants (slot ∷ rest) operation_id w (elim result [
            | err e ↦ (err e, rollback clock acquired operation_id attempt.1)
            | ok lease' ↦
                acquire_slots clock rest operation_id revisions (acquired ++ slot ∷ []) attempt.1
          ])
      go (err x) q = λ h. cc
      go (ok lease) q = λ h s here. ih attempt.1 h s (
          first_or_held slot s rest operation_id w attempt.1.table here
            (Granted-step slot s operation_id revision (24 * 60 * 60) w lease q))

  Grants-acquire_slots :
      (slots : List String) (operation_id : String) (revisions : Dict ℕ) (acquired : List String)
      (w : World)
      → Grants slots operation_id w (acquire_slots clock slots operation_id revisions acquired w)
  unfolding acquire_slots
  Grants-acquire_slots [] operation_id revisions acquired w =
      λ h s here. elim here [ inl e ↦ cc | inr held ↦ held ]
  Grants-acquire_slots (slot ∷ rest) operation_id revisions acquired w =
      Grants-cons slot rest operation_id revisions acquired w
        (Grants-acquire_slots rest operation_id revisions (acquired ++ slot ∷ []))

  -- When `acquire_runtime` succeeds, every slot of the list is held by the operation, for the
  -- runtime that the slot is for, and so stays every slot that it held so before.
  pub acquire_runtime_grants :
      (slots : List String) (operation_id : String) (revisions : Dict ℕ) (w : World) (s : String)
      → (acquire_runtime clock slots operation_id revisions w).0 ≡ ok tt
      → (contains slots s ≡ true)
        ⊎ (is_owned (runtime_owner s) operation_id (lookup s w.table) ≡ true)
      → is_owned
          (runtime_owner s)
          operation_id
          (lookup s (acquire_runtime clock slots operation_id revisions w).1.table)
        ≡ true
  unfolding acquire_runtime
  acquire_runtime_grants slots operation_id revisions w s done here =
      Grants-acquire_slots slots operation_id revisions [] w done s here

  pub freed-get :
      (slot s : String) (w : World)
      → runtime_holds s (lookup s w.table) ≡ false
      → runtime_holds s (lookup s (get clock slot w).0.table) ≡ false
  unfolding get
  freed-get slot s w h = elim (Option-cases (lookup slot w.table)) [
    | inl e ↦ ground arith
    | inr (r, e) ↦
        ground
          (arith, lookup-insert slot s (expired_row (clock (w.ticks + 1)) r) w.table, eq_iff slot s)
  ]

  pub freed-release :
      (slot s reason : String) (operation_id : Option String) (w : World)
      → runtime_holds s (lookup s w.table) ≡ false
      → runtime_holds s (lookup s (release clock slot operation_id reason w).0.table) ≡ false
  unfolding release
  freed-release slot s reason operation_id w h = elim (Option-cases (lookup slot w.table)) [
    | inl e ↦
        ground (arith, lookup-insert slot s (released_row reason (clock w.ticks) none) w.table)
    | inr (r, e) ↦
        ground (arith, lookup-insert slot s (released_row reason (clock w.ticks) (some r)) w.table)
  ]
