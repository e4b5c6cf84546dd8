-- ===== src/DualAgent/Gather.antt =====
-- What the parallel run of dual-agent-fallback/runner.py dispatches, and what it gathers from the
-- futures whatever the order in which they end.
use mathlib.Core.List.{append-nil, append_assoc}
use ai_agent_desktop.Base.{
  none, ◌&&◌, ℕ, ◌+◌, String, ◌≡◌, refl, sym, ◌∙◌, ap, true, false, Bool, Option, some, List, [],
  ◌∷◌, ◌++◌, arith, if◌then◌else◌, str_eq,
}
use ai_agent_desktop.Base.Dict.{lookup, lookup-insert}
use ai_agent_desktop.DualAgent.Delegator.{
  DelegateStatus, success, failed, timeout, DelegateResult, is_ok, Outcome,
}
use ai_agent_desktop.DualAgent.Guard.{TextHash, HopLimit, hop_record, would_exceed}
use ai_agent_desktop.DualAgent.Aggregate.{AgentResults, no_results, add}
use ai_agent_desktop.DualAgent.Sequence.{Call, logging}
use ai_agent_desktop.DualAgent.Runner.{
  delegate_one, ParallelTarget, Future, Completion, submit, result_of, collect, Parallel,
  run_parallel, finished, timed_out,
}

-- The calls that are due to targets from a turn on.
abbrev pub calls_of : ℕ → List ParallelTarget → List Call
calls_of turn [] = []
calls_of turn (t ∷ rest) =
    record { agent = t.agent; message = t.message; turn = turn } ∷ calls_of (turn + 1) rest

abbrev pub targets_of : List Future → List ParallelTarget
targets_of [] = []
targets_of (f ∷ fs) = f.target ∷ targets_of fs

module _ (answer : String → String → ℕ → Outcome) (took : ℕ → ℕ) where
  submit_all :
      (turn : ℕ) (targets : List ParallelTarget) (hops : HopLimit) (log : List Call)
      → would_exceed hops ≡ false
      → let (log', futures) = submit took (logging answer) turn targets hops log in
        (log' ≡ log ++ calls_of turn targets) × (targets_of futures ≡ targets)
  unfolding submit delegate_one
  submit_all turn [] hops log room = (sym (append-nil log), refl)
  submit_all turn (t ∷ rest) hops log room =
      let c : Call = record { agent = t.agent; message = t.message; turn = turn } in
      let (log', same) = submit_all (turn + 1) rest hops (log ++ c ∷ []) room in
      (
        rw room (log' ∙ append_assoc log (c ∷ []) (calls_of (turn + 1) rest)),
        rw room (ap (λ l. t ∷ l) same),
      )

-- Where a result stands in the aggregate, by its status.
abbrev pub filed_under : DelegateStatus → String → AgentResults → Option DelegateResult
filed_under success a rs = lookup a rs.successes
filed_under timeout a rs = lookup a rs.timed_out
filed_under failed a rs = lookup a rs.failures

abbrev pub same_status : DelegateStatus → DelegateStatus → Bool
same_status success success = true
same_status failed failed = true
same_status timeout timeout = true
same_status _ _ = false

-- Adding a result files it under its own status and agent, and touches nothing else.
pub filed_under-add :
    (st : DelegateStatus) (a : String) (rs : AgentResults) (r : DelegateResult)
    → filed_under st a (add rs r) ≡ (
        if same_status r.status st
        then (if str_eq r.agent a then some r else filed_under st a rs)
        else filed_under st a rs)
unfolding add
filed_under-add st a rs r = ground (
  arith,
  lookup-insert r.agent a r rs.successes,
  lookup-insert r.agent a r rs.failures,
  lookup-insert r.agent a r rs.timed_out,
)

-- The result of the last of the futures, in the order in which they ended, with this status and agent.
abbrev pub last_result : DelegateStatus → String → List Future → Option DelegateResult
last_result st a [] = none
last_result st a (f ∷ fs) = elim (last_result st a fs) [
  | some later ↦ some later
  | none ↦
      if same_status (result_of f).status st && str_eq (result_of f).agent a
      then some (result_of f)
      else none
]

-- What is filed after a gathering, from what was filed before.
filed_under-collect :
    (hash : TextHash) (st : DelegateStatus) (a : String) (fs : List Future) (hops : HopLimit)
    (rs : AgentResults)
    → filed_under st a (collect hash fs hops rs).1
      ≡ elim (last_result st a fs) [ some r ↦ some r | none ↦ filed_under st a rs ]
unfolding collect
filed_under-collect hash st a [] hops rs = refl
filed_under-collect hash st a (f ∷ fs) hops rs =
    let hops' =
      if is_ok (result_of f)
      then hop_record hash hops f.target.agent (result_of f).reply
      else hops in
    ground (
      arith,
      filed_under-collect hash st a fs hops' (add rs (result_of f)),
      filed_under-add st a rs (result_of f),
    )

filed_nowhere : (st : DelegateStatus) (a : String) → filed_under st a no_results ≡ none
unfolding lookup
filed_nowhere success a = refl
filed_nowhere failed a = refl
filed_nowhere timeout a = refl

-- Whoever fails: under a status and an agent the gathering files the result of the last of the
-- futures that ended with this status and agent, and nothing if there is none. So the result of every
-- future that ended is kept, unless a later one has its status and agent.
pub collect_files :
    (hash : TextHash) (fs : List Future) (hops : HopLimit) (st : DelegateStatus) (a : String)
    → filed_under st a (collect hash fs hops no_results).1 ≡ last_result st a fs
collect_files hash fs hops st a =
    ground (arith, filed_under-collect hash st a fs hops no_results, filed_nowhere st a)

abbrev pub world_of : {W : Type 0} → Parallel W → W
world_of (finished s) = s.world
world_of (timed_out w hops) = w

-- A parallel run calls the delegator once for each target, in the given order, with the target's
-- own message and the turns 0, 1, 2 …, if the fuse is not used up, however the futures end; it
-- calls nothing if the fuse is used up.
pub parallel_once :
    (answer : String → String → ℕ → Outcome) (hash : TextHash) (took : ℕ → ℕ)
    (as_completed : List Future → Completion) (targets : List ParallelTarget) (log : List Call)
    (hops : HopLimit)
    → let end = run_parallel hash took (logging answer) as_completed targets log hops in
      world_of end ≡ (if would_exceed hops then log else log ++ calls_of 0 targets)
unfolding run_parallel
parallel_once answer hash took as_completed [] log hops = ground (arith, append-nil log)
parallel_once answer hash took as_completed (t ∷ rest) log hops =
    ground (arith, submit_all answer took 0 (t ∷ rest) hops log)
