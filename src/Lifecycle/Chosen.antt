-- ===== src/Lifecycle/Chosen.antt =====
-- Which port `choose_available` of control_plane/lifecycle/port_ownership.py chooses.
use ai_agent_desktop.Base.{
  ℕ, zero, suc, ◌+◌, ◌≤◌, ◌<◌, String, Bool, true, false, not, ◌&&◌, ◌≡◌, ◌⊎◌, inl, inr, refl, none,
  some, ap, subst, arith, Bool-cases, ◌==◌,
}
use ai_agent_desktop.Errors.{Result, ok, err}
use ai_agent_desktop.Lifecycle.Ports.{
  is_reserved, range_exhausted, validate_controlled_port, is_available, is_ok_true, choose_from,
  choose_available,
}

not_reserved : (port : ℕ) → 59000 ≤ port → is_reserved port ≡ false
unfolding is_reserved
not_reserved port low = ground (arith, low)

validated :
    (port : ℕ) → 59000 ≤ port → port ≤ 59999 → validate_controlled_port "127.0.0.1" port ≡ none
unfolding validate_controlled_port
validated port low high = ground (arith, not_reserved port low)

module _ (can_bind : String → ℕ → Bool) where
  available :
      (port : ℕ)
      → 59000 ≤ port
      → port ≤ 59999
      → is_available can_bind "127.0.0.1" port ≡ ok (can_bind "127.0.0.1" port)
  unfolding is_available
  available port low high =
      ap
        (λ raised. elim raised as (λ _. Result Bool) [
          | some e ↦ err e
          | none ↦ ok (can_bind "127.0.0.1" port)
        ])
        (validated port low high)

  -- The test of the loop on one port.
  usable_lem :
      (port : ℕ)
      → 59000 ≤ port
      → port ≤ 59999
      → (not (is_reserved port) && is_ok_true can_bind (is_available can_bind "127.0.0.1" port))
        ≡ can_bind "127.0.0.1" port
  usable_lem port low high = elim (Bool-cases (can_bind "127.0.0.1" port)) [
    | inl e ↦ rw (not_reserved port low, available port low high, e) refl
    | inr e ↦ rw (not_reserved port low, available port low high, e) refl
  ]

  -- What is chosen from `n` ports, or that there is nothing to choose.
  abbrev Choice : ℕ → ℕ → Result ℕ → Type 0
  Choice n port result =
      ((p : ℕ) × (result ≡ ok p)
        × (port ≤ p)
        × (p < port + n)
        × (can_bind "127.0.0.1" p ≡ true)
        × ((q : ℕ) → port ≤ q → q < p → can_bind "127.0.0.1" q ≡ false))
      ⊎ ((result ≡ err range_exhausted)
          × ((q : ℕ) → port ≤ q → q < port + n → can_bind "127.0.0.1" q ≡ false))

  before :
      (port bound_at : ℕ)
      → can_bind "127.0.0.1" port ≡ false
      → ((q : ℕ) → port + 1 ≤ q → q < bound_at → can_bind "127.0.0.1" q ≡ false)
      → (q : ℕ) → port ≤ q
      → q < bound_at
      → can_bind "127.0.0.1" q ≡ false
  before port bound_at e rest q a b = elim (Bool-cases (port == q)) [
    | inl same ↦ subst (λ x. can_bind "127.0.0.1" x ≡ false) (ground (arith, same)) e
    | inr other ↦ rest q (ground (arith, other, a)) b
  ]

  later :
      (n port : ℕ) (result : Result ℕ)
      → can_bind "127.0.0.1" port ≡ false
      → Choice n (port + 1) result
      → Choice (suc n) port result
  later n port result e (inl (p, same, low, high, bound, first)) =
      inl (p, same, omega (arith, low), omega (arith, high), bound, before port p e first)
  later n port result e (inr (same, none_free)) =
      inr (same, λ q a b. before port (port + 1 + n) e none_free q a (omega (arith, b)))

  -- The first of `n` ports from `port` on that can be bound, or none of them can.
  choose_from_lem :
      (n port : ℕ) → 59000 ≤ port → port + n ≤ 60000 → Choice n port (choose_from can_bind n port)
  unfolding choose_from
  choose_from_lem zero port low high = inr (refl, λ q a b. ground (arith, a, b))
  choose_from_lem (suc n) port low high =
      let test = usable_lem port low (omega (arith, high)) in
      elim (Bool-cases (can_bind "127.0.0.1" port)) [
        | inl e ↦
            rw (choose_from, test, e)
              (inl (port, refl, omega arith, omega arith, e, λ q a b. ground (arith, a, b)))
        | inr e ↦
            rw (choose_from, test, e)
              (later n port _ e
                (choose_from_lem n (port + 1) (omega (arith, low)) (omega (arith, high))))
      ]

  -- The port that is chosen is the first one from 59000 to 59999 that can be bound on the loopback
  -- address; if none of them can be bound, the range is exhausted.
  pub choose_available_lem :
      ((p : ℕ) × (choose_available can_bind ≡ ok p)
        × (59000 ≤ p)
        × (p < 60000)
        × (can_bind "127.0.0.1" p ≡ true)
        × ((q : ℕ) → 59000 ≤ q → q < p → can_bind "127.0.0.1" q ≡ false))
      ⊎ ((choose_available can_bind ≡ err range_exhausted)
          × ((q : ℕ) → 59000 ≤ q → q < 60000 → can_bind "127.0.0.1" q ≡ false))
  unfolding choose_available
  choose_available_lem = choose_from_lem 1000 59000 (omega arith) (omega arith)
