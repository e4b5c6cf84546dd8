-- ===== src/Lease/Fencing.antt =====
-- What a sequence of requests to control_plane/telegram/update_lease.py may do to a row.
use ai_agent_desktop.Base.{
  ℕ, ◌+◌, ◌<◌, String, ◌≡◌, ◌⊎◌, inl, inr, refl, false, Bool, Option, none, some, List, [], ◌∷◌,
  arith, eq_iff, not, ◌&&◌, leb, opt_str_eq, Bool-cases, Option-cases,
}
use ai_agent_desktop.Base.Dict.{lookup, insert, lookup-insert}
use ai_agent_desktop.Lease.Model.{
  UpdateOwner, nobody, same_owner, LeaseRecord, World, get, acquire, heartbeat, release,
  held_by_other, acquired_row, beat_row, expired_row, released_row, may_release,
}

pub data Request : Type 0 where
  getting : String → Request
  acquiring : String → UpdateOwner → String → ℕ → ℕ → Request
  beating : String → String → Option ℕ → ℕ → Request
  releasing : String → Option String → String → Request

abbrev pub revision_of : Option LeaseRecord → ℕ
revision_of none = 0
revision_of (some r) = r.revision

-- `b` is the row `a`, or a later revision of it.
abbrev pub Follows : Option LeaseRecord → Option LeaseRecord → Type 0
Follows a b = (a ≡ b) ⊎ (revision_of a < revision_of b)

module _ (clock : ℕ → ℕ) where
  unfoldable pub serve : Request → World → World
  serve (getting slot) w = (get clock slot w).0
  serve (acquiring slot owner operation_id revision ttl) w =
      (acquire clock slot owner operation_id revision ttl w).1
  serve (beating slot operation_id next ttl) w = (heartbeat clock slot operation_id next ttl w).1
  serve (releasing slot operation_id reason) w = (release clock slot operation_id reason w).0

  unfoldable pub serve_all : List Request → World → World
  serve_all [] w = w
  serve_all (q ∷ qs) w = serve_all qs (serve q w)

-- The table is as it was, or one row was written with a higher revision.
abbrev pub Writes : String → World → World → Type 0
Writes slot w w' =
    (w'.table ≡ w.table)
    ⊎ ((r : LeaseRecord) × (w'.table ≡ insert slot r w.table)
        × (revision_of (lookup slot w.table) < r.revision))

-- The test of `get`.
expires_now : ℕ → LeaseRecord → Bool
expires_now now r =
    not (same_owner r.owner nobody) && elim r.expires_at [ none ↦ false | some t ↦ leb t now ]

module _ (clock : ℕ → ℕ) where
  get-Writes : (slot : String) (w : World) → Writes slot w (get clock slot w).0
  unfolding get expires_now
  get-Writes slot w = elim (Option-cases (lookup slot w.table)) [
    | inl e ↦ inl (ground arith)
    | inr (r, e) ↦ elim (Bool-cases (expires_now (clock w.ticks) r)) [
      | inl over ↦ inr (expired_row (clock (w.ticks + 1)) r, ground arith, ground arith)
      | inr live ↦ inl (ground arith)
    ]
  ]

  acquire-Writes :
      (slot : String) (owner : UpdateOwner) (operation_id : String) (revision ttl : ℕ) (w : World)
      → Writes slot w (acquire clock slot owner operation_id revision ttl w).1
  unfolding acquire
  acquire-Writes slot owner operation_id revision ttl w =
      let row = lookup slot w.table in
      elim (Bool-cases (held_by_other owner operation_id (clock w.ticks) row)) [
        | inl held ↦ inl (ground arith)
        | inr free ↦ inr (
          acquired_row owner operation_id revision ttl (clock w.ticks) row,
          ground arith,
          ground arith,
        )
      ]

  heartbeat-Writes :
      (slot operation_id : String) (next : Option ℕ) (ttl : ℕ) (w : World)
      → Writes slot w (heartbeat clock slot operation_id next ttl w).1
  unfolding heartbeat
  heartbeat-Writes slot operation_id next ttl w = elim (Option-cases (lookup slot w.table)) [
    | inl e ↦ inl (ground arith)
    | inr (r, e) ↦ elim (Bool-cases (opt_str_eq r.operation_id (some operation_id))) [
      | inl mine ↦ inr (beat_row next ttl (clock w.ticks) r, ground arith, ground arith)
      | inr other ↦ inl (ground arith)
    ]
  ]

  release-Writes :
      (slot : String) (operation_id : Option String) (reason : String) (w : World)
      → Writes slot w (release clock slot operation_id reason w).0
  unfolding release
  release-Writes slot operation_id reason w = elim (Option-cases (lookup slot w.table)) [
    | inl e ↦ inr (released_row reason (clock w.ticks) none, ground arith, ground arith)
    | inr (r, e) ↦ elim (Bool-cases (may_release operation_id r.operation_id)) [
      | inl mine ↦ inr (released_row reason (clock w.ticks) (some r), ground arith, ground arith)
      | inr other ↦ inl (ground arith)
    ]
  ]

  slot_of : Request → String
  slot_of (getting slot) = slot
  slot_of (acquiring slot owner operation_id revision ttl) = slot
  slot_of (beating slot operation_id next ttl) = slot
  slot_of (releasing slot operation_id reason) = slot

  serve-Writes : (q : Request) (w : World) → Writes (slot_of q) w (serve clock q w)
  unfolding serve slot_of
  serve-Writes (getting slot) w = get-Writes slot w
  serve-Writes (acquiring slot owner operation_id revision ttl) w =
      acquire-Writes slot owner operation_id revision ttl w
  serve-Writes (beating slot operation_id next ttl) w =
      heartbeat-Writes slot operation_id next ttl w
  serve-Writes (releasing slot operation_id reason) w = release-Writes slot operation_id reason w

  Writes-Follows :
      (s slot : String) (w w' : World)
      → Writes s w w'
      → Follows (lookup slot w.table) (lookup slot w'.table)
  Writes-Follows s slot w w' (inl e) = inl (ground arith)
  Writes-Follows s slot w w' (inr (r, e, h)) =
      ground (arith, lookup-insert s slot r w.table, eq_iff s slot)

Follows-trans : (a b c : Option LeaseRecord) → Follows a b → Follows b c → Follows a c
Follows-trans a b c h k = ground arith

module _ (clock : ℕ → ℕ) where
  -- Over any sequence of requests to the service, on any slots, with any clock, a slot's row stays
  -- the same or ends with a higher revision than before.
  pub serve_all-Follows :
      (qs : List Request) (w : World) (slot : String)
      → Follows (lookup slot w.table) (lookup slot (serve_all clock qs w).table)
  unfolding serve_all
  serve_all-Follows [] w slot = inl refl
  serve_all-Follows (q ∷ qs) w slot =
      Follows-trans (lookup slot w.table) (lookup slot (serve clock q w).table)
        (lookup slot (serve_all clock qs (serve clock q w)).table)
        (Writes-Follows clock (slot_of clock q) slot w (serve clock q w) (serve-Writes clock q w))
        (serve_all-Follows qs (serve clock q w) slot)
