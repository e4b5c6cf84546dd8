-- ===== src/Hermes/Reworks.antt =====
-- The execution mode of src/hermes-adapter/orchestrator.py ends, after two reworks at most.
use Prim.Native.String.{◌++◌}
use ai_agent_desktop.Base.{
  ℕ, zero, suc, ◌+◌, ◌*◌, ◌≤◌, ◌<◌, String, true, Option, none, some, ◌≡◌, refl, inl, inr, ap,
  subst, eq_iff, ◌∙◌, arith, leb, Bool-cases, Option-cases,
}
use ai_agent_desktop.Hermes.Orchestrator.{
  rework_round, working_on, build_discussion_context, TaskRow, TaskRequest, Orchestrator, Host,
  notify, update_task, check_control, delegate_once,
}
use ai_agent_desktop.Hermes.Modes.{
  review, reimplement, approve, pause_at_cap, rework, run_execution, complete_task, implementer,
  reviewer,
}
use ai_agent_desktop.Hermes.Bounded.{
  hops, CalledFrom, delegate_once_hops, delegate_once_task, update_task_hops,
}

-- The count of reworks in the row of the task.
abbrev pub reworks : Orchestrator → ℕ
reworks o = o.task.review_rework_count

module _ (h : Host) where
  working_count :
      (mode speaker : String) (o : Orchestrator)
      → reworks (update_task h (working_on h mode speaker) o) ≡ reworks o
  unfolding update_task
  working_count mode speaker o = ground arith

  review_lem :
      (q : TaskRequest) (implementation : String) (turn : ℕ) (o : Orchestrator)
      → CalledFrom (hops o) (review h q implementation turn o)
        × (reworks (review h q implementation turn o).1 ≡ reworks o)
  unfolding review
  review_lem q implementation turn o =
      let change = working_on h "REVIEW" (reviewer h q) in
      let o' = update_task h change o in
      let message =
        build_discussion_context h q.user_request "对以下实现做审查" o'.turns
        ++ "\n\n【待审查的实现】\n"
        ++ h.first 3000 implementation in
      (
        subst (λ n. CalledFrom n (review h q implementation turn o)) (update_task_hops h change o)
            (delegate_once_hops h (reviewer h q) message turn o'),
        ap (λ row. row.review_rework_count) (delegate_once_task h (reviewer h q) message turn o')
            ∙ working_count "REVIEW" (reviewer h q) o,
      )

  written_count :
      (count : ℕ) (speaker : String) (o : Orchestrator)
      → h.writable ≡ true
      → reworks (
          update_task h
            (λ row. record row {
              review_rework_count = count + 1;
              mode = "EXECUTION";
              current_speaker = speaker;
            })
            o)
        ≡ count + 1
  unfolding update_task
  written_count count speaker o written = rw written refl

  reimplement_lem :
      (q : TaskRequest) (reviewed : String) (count turn : ℕ) (o : Orchestrator)
      → h.writable ≡ true
      → CalledFrom (hops o) (reimplement h q reviewed count turn o)
        × (reworks (reimplement h q reviewed count turn o).1 ≡ count + 1)
  unfolding reimplement notify
  reimplement_lem q reviewed count turn o written =
      let change : TaskRow → TaskRow = λ row. record row {
        review_rework_count = count + 1;
        mode = "EXECUTION";
        current_speaker = implementer h q;
      } in
      let o' = update_task h change o in
      let o'' = notify (rework_round (count + 1)) o' in
      let message =
        build_discussion_context h q.user_request "参考审查意见重新实现" o''.turns
        ++ "\n\n【审查意见】\n"
        ++ h.first 3000 reviewed in
      (
        subst (λ n. CalledFrom n (reimplement h q reviewed count turn o))
            (update_task_hops h change o) (delegate_once_hops h (implementer h q) message turn o''),
        ap (λ row. row.review_rework_count)
              (delegate_once_task h (implementer h q) message turn o'')
            ∙ written_count count (implementer h q) o written,
      )

  pause_hops : (q : TaskRequest) (o : Orchestrator) → hops (pause_at_cap h q o) ≡ hops o
  unfolding pause_at_cap notify
  pause_hops q o = update_task_hops h (λ row. record row { mode = "REVIEW"; status = "PAUSED" }) _

  pause_count : (q : TaskRequest) (o : Orchestrator) → reworks (pause_at_cap h q o) ≡ reworks o
  unfolding pause_at_cap notify update_task
  pause_count q o = ground arith

  approve_hops :
      (q : TaskRequest) (implementation reviewed : String) (o : Orchestrator)
      → hops (approve h q implementation reviewed o) ≡ hops o
  unfolding approve notify
  approve_hops q implementation reviewed o =
      update_task_hops h (λ row. record row { current_speaker = "hermes" }) _

  approve_count :
      (q : TaskRequest) (implementation reviewed : String) (o : Orchestrator)
      → reworks (approve h q implementation reviewed o) ≡ reworks o
  unfolding approve notify update_task
  approve_count q implementation reviewed o = ground arith

  -- How the loop ends from an orchestrator: it has called agents twice at most for each rework that
  -- is left.
  abbrev Ended : Orchestrator → Option Orchestrator → Type 0
  Ended o result =
      (o' : Orchestrator) × (result ≡ some o')
      × (hops o' + 2 * reworks o ≤ hops o + 4)
      × (reworks o' ≤ 2)

  rework_ends :
      (q : TaskRequest) (fuel : ℕ) (implementation : String) (turn : ℕ) (o : Orchestrator)
      → h.writable ≡ true
      → reworks o ≤ 2
      → 3 ≤ fuel + reworks o
      → Ended o (rework h q fuel implementation turn o)
  unfolding rework check_control
  rework_ends q zero implementation turn o written low enough = ground (arith, low, enough)
  rework_ends q (suc fuel) implementation turn o written low enough =
      let o1 = (check_control h o).1 in
      let reviewed = review h q implementation turn o1 in
      let (called, kept) = review_lem q implementation turn o1 in
      elim (Bool-cases (h.goes_on o.checks)) [
        | inr e ↦ rw (rework, e) (o1, refl, omega (arith, low), low)
        | inl e ↦ elim (Bool-cases (leb 2 (reworks o))) [
          | inl f ↦
              rw (rework, e, f)
                (
                  pause_at_cap h q o1,
                  refl,
                  omega (arith, low, pause_hops q o1),
                  omega (arith, low, pause_count q o1),
                )
          | inr f ↦
              let more : reworks o < 2 = ground (arith, f) in
              elim (Option-cases reviewed.0) [
                | inl g ↦
                    rw (rework, e, f, g)
                      (
                        reviewed.1,
                        refl,
                        ground (arith, called, low, more),
                        omega (arith, kept, low),
                      )
                | inr (text, g) ↦
                    let here : hops reviewed.1 ≡ hops o + 1 = ground (arith, called, g) in
                    let again = reimplement h q text (reworks o) (turn + 1) reviewed.1 in
                    let (called', counted) =
                      reimplement_lem q text (reworks o) (turn + 1) reviewed.1 written in
                    elim (Bool-cases (h.has "APPROVED" (h.upper text))) [
                      | inl a ↦
                          rw (rework, e, f, g, a)
                            (
                              approve h q implementation text reviewed.1,
                              refl,
                              omega (
                                arith,
                                approve_hops q implementation text reviewed.1,
                                here,
                                more,
                              ),
                              omega (
                                arith,
                                approve_count q implementation text reviewed.1,
                                kept,
                                low,
                              ),
                            )
                      | inr a ↦ elim (Option-cases again.0) [
                        | inl r ↦
                            rw (rework, e, f, g, a, r)
                              (
                                again.1,
                                refl,
                                ground (arith, called', here, more),
                                omega (arith, counted, more),
                              )
                        | inr (text', r) ↦
                            let there : hops again.1 ≡ hops o + 2 =
                              ground (arith, called', here, r) in
                            let (o', same, bound, top) =
                              rework_ends q fuel text' (turn + 2) again.1 written
                                (omega (arith, counted, more)) (omega (arith, counted, enough)) in
                            rw (rework, e, f, g, a, r)
                              (o', same, omega (arith, bound, there, counted), top)
                      ]
                    ]
              ]
        ]
      ]

  working_status :
      (mode speaker : String) (o : Orchestrator)
      → (update_task h (working_on h mode speaker) o).task.status ≡ o.task.status
  unfolding update_task
  working_status mode speaker o = ground arith

  done_after :
      (q : TaskRequest) (o : Orchestrator)
      → h.writable ≡ true
      → h.goes_on o.checks ≡ true
      → o.task.status ≡ "working"
      → (complete_task h q o).task.status ≡ "DONE"
  unfolding complete_task update_task notify
  done_after q o written still working =
      rw (complete_task, written, still) (ground (arith, eq_iff o.task.status "working"))

  -- The first implementation, on the task that is marked as worked on.
  abbrev pub first_call : TaskRequest → Orchestrator → Option String × Orchestrator
  first_call q o =
      delegate_once h (implementer h q) q.user_request 0
        (update_task h (working_on h "EXECUTION" (implementer h q)) (check_control h o).1)

  first_call_lem :
      (q : TaskRequest) (o : Orchestrator)
      → CalledFrom (hops o) (first_call q o) × (reworks (first_call q o).1 ≡ reworks o)
  unfolding check_control
  first_call_lem q o =
      let o1 = (check_control h o).1 in
      let change = working_on h "EXECUTION" (implementer h q) in
      let o' = update_task h change o1 in
      (
        subst (λ n. CalledFrom n (first_call q o)) (update_task_hops h change o1)
            (delegate_once_hops h (implementer h q) q.user_request 0 o'),
        ap (λ row. row.review_rework_count)
              (delegate_once_task h (implementer h q) q.user_request 0 o')
            ∙ working_count "EXECUTION" (implementer h q) o1,
      )

  -- When the store takes writes, an execution ends, whatever the agents answer: three rounds of its
  -- loop are enough. It leaves at most two reworks counted, and calls agents five times at most,
  -- less two for each rework that was counted before.
  pub run_execution_ends :
      (q : TaskRequest) (o : Orchestrator)
      → h.writable ≡ true
      → reworks o ≤ 2
      → (o' : Orchestrator) × (run_execution h q 3 o ≡ some o')
        × (hops o' + 2 * reworks o ≤ hops o + 5)
        × (reworks o' ≤ 2)
  unfolding run_execution check_control
  run_execution_ends q o written low =
      let made = first_call q o in
      let (called, kept) = first_call_lem q o in
      elim (Bool-cases (h.goes_on o.checks)) [
        | inr e ↦ rw (run_execution, e) ((check_control h o).1, refl, omega (arith, low), low)
        | inl e ↦ elim (Option-cases made.0) [
          | inl f ↦
              rw (run_execution, e, f)
                (made.1, refl, ground (arith, called, low), omega (arith, kept, low))
          | inr (text, f) ↦
              let here : hops made.1 ≡ hops o + 1 = ground (arith, called, f) in
              let (o', same, bound, top) =
                rework_ends q 3 text 1 made.1 written (omega (arith, kept, low)) (omega arith) in
              rw (run_execution, e, f) (o', same, omega (arith, bound, here, kept), top)
        ]
      ]

  -- An execution whose first call fails is marked done, if the task works and is not stopped and
  -- the store takes writes.
  pub failed_execution_done :
      (q : TaskRequest) (o : Orchestrator)
      → h.writable ≡ true
      → h.goes_on o.checks ≡ true
      → h.goes_on (first_call q o).1.checks ≡ true
      → o.task.status ≡ "working"
      → (first_call q o).0 ≡ none
      → (o' : Orchestrator) × (run_execution h q 3 o ≡ some o')
        × ((complete_task h q o').task.status ≡ "DONE")
  unfolding run_execution check_control
  failed_execution_done q o written going still working silent =
      let o1 = (check_control h o).1 in
      let o' = update_task h (working_on h "EXECUTION" (implementer h q)) o1 in
      let same =
        ap (λ row. row.status) (delegate_once_task h (implementer h q) q.user_request 0 o')
        ∙ working_status "EXECUTION" (implementer h q) o1
        ∙ working in
      rw (run_execution, going, silent)
        ((first_call q o).1, refl, done_after q (first_call q o).1 written still same)
