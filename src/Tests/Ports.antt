-- ===== src/Tests/Ports.antt =====
-- The ports of control_plane/lifecycle/port_ownership.py at concrete inputs.
use ai_agent_desktop.Base.{
  ℕ, ◌≤◌, ◌<◌, String, Bool, true, false, not, none, some, [], ◌∷◌, ◌≡◌, ◌⊎◌, refl, ◌==◌,
}
use ai_agent_desktop.Errors.{ok, err}
use ai_agent_desktop.Lifecycle.Ports.{
  Connection, owned, conflict, range_exhausted, choose_available, inspect,
}
use ai_agent_desktop.Lifecycle.Chosen.{choose_available_lem}

-- Another program has the first port.
abbrev first_taken : String → ℕ → Bool
first_taken host port = not (port == 59000)

abbrev listener : ℕ → Connection
listener pid = record { status = "LISTEN"; laddr = some ("0.0.0.0", 59001); pid = some pid }

choose_available_lem_example :
    ((p : ℕ) × (choose_available first_taken ≡ ok p)
      × (59000 ≤ p)
      × (p < 60000)
      × (first_taken "127.0.0.1" p ≡ true)
      × ((q : ℕ) → 59000 ≤ q → q < p → first_taken "127.0.0.1" q ≡ false))
    ⊎ ((choose_available first_taken ≡ err range_exhausted)
        × ((q : ℕ) → 59000 ≤ q → q < 60000 → first_taken "127.0.0.1" q ≡ false))
choose_available_lem_example = choose_available_lem first_taken

-- One process that listens twice owns the port; two processes are a conflict without an owner.
owned_port :
    inspect first_taken (some (listener 7 ∷ listener 7 ∷ [])) "127.0.0.1" 59001 (some 7)
    ≡ ok (record { listen_port = 59001; status = owned; owner_pid = some 7; expected_pid = some 7 })
unfolding inspect
owned_port = refl

shared_port :
    inspect first_taken (some (listener 7 ∷ listener 8 ∷ [])) "127.0.0.1" 59001 (some 7)
    ≡ ok
        (record { listen_port = 59001; status = conflict; owner_pid = none; expected_pid = some 7 })
unfolding inspect
shared_port = refl
