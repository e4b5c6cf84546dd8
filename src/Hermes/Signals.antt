-- ===== src/Hermes/Signals.antt =====
-- What the guard of src/hermes-adapter/relay_client.py tells of the calls that were made.
use mathlib.Core.List
use mathlib.Core.List.{append-nil, append_assoc}
use ai_agent_desktop.Base.{
  ℕ, ◌+◌, String, ◌≡◌, refl, subst, ap, sym, Option, none, some, List, [], ◌∷◌, arith, length,
  length-append, ◌==◌, str_eq, eq_iff, Bool-cases, if◌then◌else◌, inl, inr,
}
use ai_agent_desktop.DualAgent.Guard.{TextHash}
use ai_agent_desktop.Hermes.Relay.{
  HopGuard, new_guard, output_hash, alternating, count_hop, note_reply, Ran, timed_out, not_found,
  failed, exited, RelayClient, Delegation, conclude, send,
}

-- The newest text of a list that has the newest first.
abbrev pub newest : List String → Option String
newest [] = none
newest (h ∷ hs) = some h

-- How many of the newest texts in a row equal the one before them.
abbrev pub repeats : List String → ℕ
repeats [] = 0
repeats (h ∷ []) = 0
repeats (h ∷ h' ∷ hs) = let rest = repeats (h' ∷ hs) in if str_eq h h' then rest + 1 else 0

-- The guard tells the agents that were called, in their order, and the hashes of the replies, of
-- which the newest comes first.
abbrev pub Signals : HopGuard → List String → List String → Type 0
Signals g agents hs =
    (g.hop_count ≡ length agents)
    × (g.speaker_sequence ≡ agents)
    × (g.ping_pong_detected ≡ alternating agents)
    × (g.last_output_hash ≡ newest hs)
    × (g.consecutive_repeat ≡ repeats hs)

abbrev pub agents_of : List (Delegation × Ran) → List String
agents_of [] = []
agents_of ((d, r) ∷ calls) = d.agent_id ∷ agents_of calls

-- The hash of a reply, if the command exited with 0, is put before the earlier ones.
abbrev pub hear : TextHash → Ran → List String → List String
hear t (exited code stdout stderr) hs =
    if code == 0 then output_hash t (t.strip stdout) ∷ hs else hs
hear t _ hs = hs

abbrev pub heard : TextHash → List (Delegation × Ran) → List String → List String
heard t [] hs = hs
heard t ((d, r) ∷ calls) hs = heard t calls (hear t r hs)

note_reply-Signals :
    (t : TextHash) (reply : String) (g : HopGuard) (agents hs : List String)
    → Signals g agents hs
    → Signals (note_reply t reply g) agents (output_hash t reply ∷ hs)
unfolding note_reply
note_reply-Signals t reply g agents [] (hops, speakers, ping, last, repeated) =
    (ground arith, ground arith, ground arith, ground arith, ground arith)
note_reply-Signals t reply g agents (x ∷ hs) (hops, speakers, ping, last, repeated) =
    let same = eq_iff (output_hash t reply) x in
    (ground arith, ground arith, ground arith, ground (arith, same), ground (arith, same))

count_hop-Signals :
    (agent : String) (g : HopGuard) (agents hs : List String)
    → Signals g agents hs
    → Signals (count_hop agent g) (List.◌++◌ agents (agent ∷ [])) hs
unfolding count_hop
count_hop-Signals agent g agents hs (hops, speakers, ping, last, repeated) = (
  omega (arith, length-append agents (agent ∷ [])),
  ap (λ seq. List.◌++◌ seq (agent ∷ [])) speakers,
  ap (λ seq. alternating (List.◌++◌ seq (agent ∷ []))) speakers,
  last,
  repeated,
)

module _ (t : TextHash) (show : ℕ → String) (first_500 : String → String) where
  conclude-Signals :
      (d : Delegation) (r : Ran) (c : RelayClient) (agents hs : List String)
      → Signals c.guard agents hs
      → Signals (conclude t show first_500 d r c).0.guard agents (hear t r hs)
  unfolding conclude
  conclude-Signals d timed_out c agents hs h = h
  conclude-Signals d not_found c agents hs h = h
  conclude-Signals d (failed text) c agents hs h = h
  conclude-Signals d (exited code stdout stderr) c agents hs h = elim (Bool-cases (code == 0)) [
    | inl good ↦ rw good (note_reply-Signals t (t.strip stdout) c.guard agents hs h)
    | inr bad ↦ rw bad h
  ]

  -- A number of calls of `send`, each with what its command came to.
  unfoldable pub send_all : List (Delegation × Ran) → RelayClient → RelayClient
  send_all [] c = c
  send_all ((d, r) ∷ calls) c = send_all calls (send t show first_500 (λ command timeout. r) d c).0

  send_all-Signals_from :
      (calls : List (Delegation × Ran)) (c : RelayClient) (agents hs : List String)
      → Signals c.guard agents hs
      → Signals (send_all calls c).guard (List.◌++◌ agents (agents_of calls)) (heard t calls hs)
  unfolding send_all send
  send_all-Signals_from [] c agents hs h =
      subst (λ a. Signals c.guard a hs) (sym (append-nil agents)) h
  send_all-Signals_from ((d, r) ∷ calls) c agents hs h =
      let c' : RelayClient = record c { guard = count_hop d.agent_id c.guard } in
      let after =
        conclude-Signals d r c' (List.◌++◌ agents (d.agent_id ∷ [])) hs
          (count_hop-Signals d.agent_id c.guard agents hs h) in
      let next = (conclude t show first_500 d r c').0 in
      let end =
        send_all-Signals_from calls next (List.◌++◌ agents (d.agent_id ∷ [])) (hear t r hs) after in
      subst (λ a. Signals (send_all calls next).guard a (heard t calls (hear t r hs)))
        (append_assoc agents (d.agent_id ∷ []) (agents_of calls)) end

  -- After any calls of a fresh client, whatever their commands come to: the guard has counted every
  -- call, also the failed ones, holds their agents in order and tells whether they end in a
  -- ping-pong, and counts how often the newest replies repeat each other, over the successful calls
  -- alone.
  pub send_all-Signals :
      (calls : List (Delegation × Ran)) (c : RelayClient)
      → c.guard ≡ new_guard
      → Signals (send_all calls c).guard (agents_of calls) (heard t calls [])
  unfolding alternating
  send_all-Signals calls c fresh =
      send_all-Signals_from calls c [] []
        (subst (λ g. Signals g [] []) (sym fresh) (refl, refl, refl, refl, refl))
