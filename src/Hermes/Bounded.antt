-- ===== src/Hermes/Bounded.antt =====
-- The discussion of src/hermes-adapter/orchestrator.py ends, after a bounded number of calls.
use ai_agent_desktop.Base.{
  ℕ, zero, suc, ◌+◌, ◌≤◌, ◌<◌, String, Bool, true, false, Option, none, some, List, [], ◌∷◌, ◌≡◌,
  refl, inl, inr, ◌⊎◌, subst, ◌∙◌, arith, leb, if◌then◌else◌, Bool-cases, Option-cases,
}
use ai_agent_desktop.DualAgent.Guard.{TextHash}
use ai_agent_desktop.Hermes.Relay.{
  HopGuard, would_exceed_max_hops, count_hop, note_reply, Ran, timed_out, not_found, failed, exited,
  RelayClient, Delegation, conclude, send,
}
use ai_agent_desktop.Hermes.Orchestrator.{
  working_on, select_speaker, build_discussion_context, derive_issue, TaskRow, TaskRequest,
  Orchestrator, Host, notify, converged, update_task, check_control, project_of, answered,
  delegate_once, is_converged, final_summary, fuses, decayed,
}
use ai_agent_desktop.Hermes.Modes.{or_agents, speak, discuss, run_discussion}

-- The calls of agents so far.
abbrev pub hops : Orchestrator → ℕ
hops o = o.relay.guard.hop_count

-- One call was made, or none, and then there is no reply.
abbrev pub CalledFrom : ℕ → Option String × Orchestrator → Type 0
CalledFrom before (reply, o) = (hops o ≡ before + 1) ⊎ ((hops o ≡ before) × (reply ≡ none))

module _ (t : TextHash) (show : ℕ → String) (first_500 : String → String) where
  conclude_hops :
      (d : Delegation) (ran : Ran) (c : RelayClient)
      → (conclude t show first_500 d ran c).0.guard.hop_count ≡ c.guard.hop_count
  unfolding conclude note_reply
  conclude_hops d timed_out c = refl
  conclude_hops d not_found c = refl
  conclude_hops d (failed text) c = refl
  conclude_hops d (exited code stdout stderr) c = ground arith

  send_hops :
      (run : List String → ℕ → Ran) (d : Delegation) (c : RelayClient)
      → (send t show first_500 run d c).0.guard.hop_count ≡ c.guard.hop_count + 1
  unfolding send count_hop
  send_hops run d c = conclude_hops d _ _

module _ (h : Host) where
  answered_hops :
      (agent : String) (turn : ℕ) (sent : RelayClient × Bool × String) (o : Orchestrator)
      → hops (answered h agent turn sent o).1 ≡ sent.0.guard.hop_count
  unfolding answered notify
  answered_hops agent turn (relay, true, reply) o = refl
  answered_hops agent turn (relay, false, reply) o = refl

  answered_task :
      (agent : String) (turn : ℕ) (sent : RelayClient × Bool × String) (o : Orchestrator)
      → (answered h agent turn sent o).1.task ≡ o.task
  unfolding answered notify
  answered_task agent turn (relay, true, reply) o = refl
  answered_task agent turn (relay, false, reply) o = refl

  -- A delegation is one call, or none where there is no such agent, and then there is no reply.
  pub delegate_once_hops :
      (agent message : String) (turn : ℕ) (o : Orchestrator)
      → CalledFrom (hops o) (delegate_once h agent message turn o)
  unfolding delegate_once notify
  delegate_once_hops agent message turn o = elim (Option-cases (project_of agent)) [
    | inl e ↦ rw (delegate_once, e) (inr (refl, refl))
    | inr (project, e) ↦
        rw (delegate_once, e)
          (inl (answered_hops agent turn _ o ∙ send_hops h.hash h.show (h.first 500) _ _ o.relay))
  ]

  pub delegate_once_task :
      (agent message : String) (turn : ℕ) (o : Orchestrator)
      → (delegate_once h agent message turn o).1.task ≡ o.task
  unfolding delegate_once notify
  delegate_once_task agent message turn o = elim (Option-cases (project_of agent)) [
    | inl e ↦ rw (delegate_once, e) refl
    | inr (project, e) ↦ rw (delegate_once, e) (answered_task agent turn _ o)
  ]

  pub update_task_hops :
      (change : TaskRow → TaskRow) (o : Orchestrator) → hops (update_task h change o) ≡ hops o
  unfolding update_task
  update_task_hops change o = ground arith

  speak_hops :
      (q : TaskRequest) (turn : ℕ) (o : Orchestrator) → CalledFrom (hops o) (speak h q turn o)
  unfolding speak
  speak_hops q turn o =
      let speaker =
        select_speaker h (or_agents ("claude" ∷ "codex" ∷ []) q.target_agents) o.turns in
      let change = working_on h q.mode speaker in
      let o' = update_task h change o in
      subst (λ n. CalledFrom n (speak h q turn o)) (update_task_hops change o)
        (delegate_once_hops speaker
          (build_discussion_context h q.user_request (derive_issue h o'.turns) o'.turns) turn o')

  fuses_hops :
      (guard : HopGuard) (n_stalls : ℕ) (o : Orchestrator)
      → (hops (fuses h guard n_stalls o).2 ≡ hops o)
        × ((fuses h guard n_stalls o).0 ≡ none → guard.hop_count < 40)
  unfolding fuses notify would_exceed_max_hops
  fuses_hops guard n_stalls o = elim (Bool-cases (leb 40 guard.hop_count)) [
    | inl e ↦ rw (fuses, e) (refl, λ n. ground (arith, n))
    | inr e ↦ rw (fuses, e) (ground arith, λ n. ground (arith, e))
  ]

  final_summary_hops : (o : Orchestrator) → hops (final_summary h o) ≡ hops o
  unfolding final_summary notify
  final_summary_hops o = update_task_hops (λ row. record row { current_speaker = "hermes" }) o

  summed_hops :
      (summed : Bool) (o : Orchestrator) → hops (if summed then final_summary h o else o) ≡ hops o
  summed_hops true o = final_summary_hops o
  summed_hops false o = refl

  noticed : (o : Orchestrator) → hops (final_summary h (notify converged o)) ≡ hops o
  unfolding notify
  noticed o = final_summary_hops (notify converged o)

  discuss_ends :
      (q : TaskRequest) (fuel turn n_stalls : ℕ) (o : Orchestrator)
      → hops o ≤ 40
      → 41 ≤ fuel + hops o
      → (o' : Orchestrator) × (discuss h q fuel turn n_stalls o ≡ some o') × (hops o' ≤ 40)
  unfolding discuss check_control notify
  discuss_ends q zero turn n_stalls o low enough = ground (arith, low, enough)
  discuss_ends q (suc fuel) turn n_stalls o low enough =
      let o1 = (check_control h o).1 in
      let fused = fuses h o1.relay.guard n_stalls o1 in
      let (kept, below) = fuses_hops o1.relay.guard n_stalls o1 in
      let spoken = speak h q turn fused.2 in
      elim (Bool-cases (h.goes_on o.checks)) [
        | inr e ↦ rw (discuss, e) (o1, refl, low)
        | inl e ↦ elim (Option-cases fused.0) [
          | inr (summed, f) ↦
              rw (discuss, e, f) (_, refl, omega (arith, summed_hops summed fused.2, kept, low))
          | inl f ↦ elim (speak_hops q turn fused.2) [
            | inr (g, silent) ↦
                rw (discuss, e, f, silent) (spoken.1, refl, omega (arith, g, kept, low))
            | inl g ↦ elim (Option-cases spoken.0) [
              | inl r ↦ rw (discuss, e, f, r) (spoken.1, refl, omega (arith, g, kept, below f))
              | inr (text, r) ↦ elim (Bool-cases (is_converged h spoken.1.turns)) [
                | inl v ↦
                    rw (discuss, e, f, r, v)
                      (
                        final_summary h (notify converged spoken.1),
                        refl,
                        omega (arith, noticed spoken.1, g, kept, below f),
                      )
                | inr v ↦
                    rw (discuss, e, f, r, v)
                      (discuss_ends q fuel (turn + 1) (decayed h o1.relay.guard fused.1) spoken.1
                        (omega (arith, g, kept, below f)) (omega (arith, g, kept, enough)))
              ]
            ]
          ]
        ]
      ]

  -- A discussion ends, whatever the agents answer: 41 turns of the loop are enough, and with a new
  -- guard it calls agents 40 times at most.
  pub run_discussion_ends :
      (q : TaskRequest) (o : Orchestrator)
      → hops o ≤ 40
      → (o' : Orchestrator) × (run_discussion h q 41 o ≡ some o') × (hops o' ≤ 40)
  unfolding run_discussion
  run_discussion_ends q o low = discuss_ends q 41 0 0 o low (omega (arith, low))
