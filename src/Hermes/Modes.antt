-- ===== src/Hermes/Modes.antt =====
-- The modes of src/hermes-adapter/orchestrator.py, `_run_execution` and `_run_discussion`, and what
-- `_run` does after them. `none` is fuel that ran out.
use Prim.Native.String.{◌++◌}
use ai_agent_desktop.Base.{
  ℕ, zero, suc, ◌+◌, String, true, false, Option, none, some, List, [], ◌∷◌, leb, str_eq,
  if◌then◌else◌,
}
use ai_agent_desktop.Base.Dict.{insert}
use ai_agent_desktop.Hermes.Orchestrator.{
  TaskRequest, Orchestrator, Host, rework_cap, review_passed, rework_round, converged, summary,
  task_done, max_review_rework, notify, update_task, check_control, build_discussion_context,
  delegate_once, derive_issue, is_converged, working_on, select_speaker, final_summary, fuses,
  decayed,
}

abbrev pub or_agents : List String → List String → List String
or_agents default [] = default
or_agents default (a ∷ rest) = a ∷ rest

-- The first agent implements and the second, if there is one, reviews.
abbrev pub implementer_of : List String → String
implementer_of [] = "claude"
implementer_of (a ∷ rest) = a

abbrev pub reviewer_of : List String → String
reviewer_of [] = "claude"
reviewer_of (a ∷ []) = a
reviewer_of (a ∷ b ∷ rest) = b

module _ (h : Host) (q : TaskRequest) where
  -- One turn of the discussion, after its fuses.
  unfoldable pub speak : ℕ → Orchestrator → Option String × Orchestrator
  unfolding select_speaker update_task derive_issue build_discussion_context delegate_once
  speak turn o =
      let speaker =
        select_speaker h (or_agents ("claude" ∷ "codex" ∷ []) q.target_agents) o.turns in
      let o' = update_task h (working_on h q.mode speaker) o in
      delegate_once h speaker
        (build_discussion_context h q.user_request (derive_issue h o'.turns) o'.turns) turn o'

  -- The loop of `_run_discussion`. The guard is a copy from the head of the turn.
  unfoldable pub discuss : ℕ → ℕ → ℕ → Orchestrator → Option Orchestrator
  unfolding check_control fuses speak is_converged notify final_summary decayed
  discuss zero turn n_stalls o = none
  discuss (suc fuel) turn n_stalls o =
      let (going, o1) = check_control h o in
      let (stop, stalls, o2) = fuses h o1.relay.guard n_stalls o1 in
      let (reply, o3) = speak turn o2 in
      elim going [
        | false ↦ some o1
        | true ↦ elim stop [
          | some summed ↦ some (if summed then final_summary h o2 else o2)
          | none ↦ elim reply [
            | none ↦ some o3
            | some text ↦ elim (is_converged h o3.turns) [
              | true ↦ some (final_summary h (notify converged o3))
              | false ↦ discuss fuel (turn + 1) (decayed h o1.relay.guard stalls) o3
            ]
          ]
        ]
      ]

  abbrev pub implementer : String
  implementer = implementer_of q.target_agents

  abbrev pub reviewer : String
  reviewer = reviewer_of q.target_agents

  -- The call of the reviewer.
  unfoldable pub review : String → ℕ → Orchestrator → Option String × Orchestrator
  unfolding update_task build_discussion_context delegate_once
  review implementation turn o =
      let o' = update_task h (working_on h "REVIEW" reviewer) o in
      delegate_once h reviewer
        (build_discussion_context h q.user_request "对以下实现做审查" o'.turns
          ++ "\n\n【待审查的实现】\n"
          ++ h.first 3000 implementation)
        turn o'

  -- The rework after a review, with the count that was read before it.
  unfoldable pub reimplement : String → ℕ → ℕ → Orchestrator → Option String × Orchestrator
  unfolding update_task notify build_discussion_context delegate_once
  reimplement reviewed count turn o =
      let o' =
        update_task h
          (λ row. record row {
            review_rework_count = count + 1;
            mode = "EXECUTION";
            current_speaker = implementer;
          })
          o in
      let o'' = notify (rework_round (count + 1)) o' in
      delegate_once h implementer
        (build_discussion_context h q.user_request "参考审查意见重新实现" o''.turns
          ++ "\n\n【审查意见】\n"
          ++ h.first 3000 reviewed)
        turn o''

  -- A review that approves.
  unfoldable pub approve : String → String → Orchestrator → Orchestrator
  unfolding notify update_task
  approve implementation reviewed o =
      let o' =
        update_task h (λ row. record row { current_speaker = "hermes" }) (notify review_passed o) in
      notify
        (summary (h.summarise (insert reviewer reviewed (insert implementer implementation [])))) o'

  -- The cap: the task is paused.
  unfoldable pub pause_at_cap : Orchestrator → Orchestrator
  unfolding notify update_task
  pause_at_cap o =
      update_task h (λ row. record row { mode = "REVIEW"; status = "PAUSED" })
        (notify (rework_cap max_review_rework) o)

  -- The loop of `_run_execution`.
  unfoldable pub rework : ℕ → String → ℕ → Orchestrator → Option Orchestrator
  unfolding check_control pause_at_cap review approve reimplement
  rework zero implementation turn o = none
  rework (suc fuel) implementation turn o =
      let (going, o1) = check_control h o in
      let count = o1.task.review_rework_count in
      let (reviewed, o2) = review implementation turn o1 in
      elim going [
        | false ↦ some o1
        | true ↦ elim (leb max_review_rework count) [
          | true ↦ some (pause_at_cap o1)
          | false ↦ elim reviewed [
            | none ↦ some o2
            | some text ↦
                let (implemented, o3) = reimplement text count (turn + 1) o2 in
                elim (h.has "APPROVED" (h.upper text)) [
                  | true ↦ some (approve implementation text o2)
                  | false ↦ elim implemented [
                    | none ↦ some o3
                    | some again ↦ rework fuel again (turn + 2) o3
                  ]
                ]
          ]
        ]
      ]

  -- `_run_execution`
  unfoldable pub run_execution : ℕ → Orchestrator → Option Orchestrator
  unfolding check_control update_task delegate_once rework
  run_execution fuel o =
      let (going, o1) = check_control h o in
      let (implemented, o2) =
        delegate_once h implementer q.user_request 0
          (update_task h (working_on h "EXECUTION" implementer) o1) in
      elim going [
        | false ↦ some o1
        | true ↦ elim implemented [
          | none ↦ some o2
          | some implementation ↦ rework fuel implementation 1 o2
        ]
      ]

  -- `_run_discussion`
  unfoldable pub run_discussion : ℕ → Orchestrator → Option Orchestrator
  unfolding discuss
  run_discussion fuel o = discuss fuel 0 0 o

  -- What `_run` does after a mode: a task that still works is done.
  unfoldable pub complete_task : Orchestrator → Orchestrator
  unfolding update_task notify
  complete_task o =
      if h.goes_on o.checks
      then (if str_eq o.task.status "working"
          then notify task_done (update_task h (λ row. record row { status = "DONE" }) o)
          else o)
      else o
