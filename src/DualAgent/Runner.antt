-- ===== src/DualAgent/Runner.antt =====
-- src/dual-agent-fallback/runner.py: the sequential and the parallel run.
use Prim.Native.String.{◌++◌}
use ai_agent_desktop.Base.{ℕ, ◌+◌, String, Bool, Option, none, some, List, [], ◌∷◌, if◌then◌else◌}
use ai_agent_desktop.DualAgent.Delegator.{
  DelegateResult, failed, is_ok, Outcome, returned, raised, Delegator,
}
use ai_agent_desktop.DualAgent.Guard.{TextHash, HopLimit, hop_record, would_exceed, is_stalled}
use ai_agent_desktop.DualAgent.Aggregate.{AgentResults, no_results, add}

-- `_delegate_one`: a result gets its elapsed time, an exception becomes a failed result. `took` is
-- the time that the clock shows for the call of a turn.
outcome_result : (ℕ → ℕ) → String → ℕ → Outcome → DelegateResult
outcome_result took agent turn (returned r) = record r { elapsed = took turn }
outcome_result took agent turn (raised text) = record {
  status = failed;
  agent = agent;
  reply = "";
  error = "委派异常: " ++ text;
  turn = turn;
  elapsed = took turn;
}

unfoldable pub delegate_one :
    {W : Type 0} → (ℕ → ℕ) → Delegator W → W → String → String → ℕ → W × DelegateResult
unfolding outcome_result
delegate_one took delegator w agent message turn =
    let (w', out) = delegator w agent message turn in (w', outcome_result took agent turn out)

pub record SequentialStep : Type 0 where
  pub agent : String
  pub goal : String
  pub label : String

-- The variables of the loops: the delegator's world, the fuse, and the results so far.
pub record Run (W : Type 0) : Type 0 where
  pub world : W
  pub hops : HopLimit
  pub results : AgentResults

abbrev pub hops_exceeded : String
hops_exceeded = "跳数超限，停止派发"

abbrev pub repeat_stalled : String
repeat_stalled = "连续重复输出，停止"

abbrev pub BuildMessage : Type 0
BuildMessage = String → String → Option String → String

stop : {W : Type 0} → String → Run W → Run W
stop reason s = record s { results = record s.results { stopped_reason = reason } }

module _ {W : Type 0} (hash : TextHash) (took : ℕ → ℕ) (delegator : Delegator W) where
  -- The loop of `run_sequential`, over `prior_output` and `turn`.
  unfoldable pub sequential_loop :
      BuildMessage → Option String → ℕ → List SequentialStep → Run W → Run W
  unfolding stop
  sequential_loop build prior turn [] s = s
  sequential_loop build prior turn (step ∷ rest) s =
      let (w, r) =
        delegate_one took delegator s.world step.agent (build step.agent step.goal prior) turn in
      let done : Run W = record { world = w; hops = s.hops; results = add s.results r } in
      let go =
        sequential_loop build (some r.reply) (turn + 1) rest
          (record done { hops = hop_record hash s.hops step.agent r.reply }) in
      if would_exceed s.hops
      then stop hops_exceeded s
      else if is_stalled s.hops
      then stop repeat_stalled s
      else if is_ok r
      then go
      else done

  unfoldable pub run_sequential : BuildMessage → List SequentialStep → W → HopLimit → Run W
  unfolding sequential_loop
  run_sequential build steps w hops =
      sequential_loop build none 0 steps (record { world = w; hops = hops; results = no_results })

pub record ParallelTarget : Type 0 where
  pub agent : String
  pub message : String
  pub label : String

-- A future of the pool with the target it was made for, and what `fut.result()` comes to.
pub record Future : Type 0 where
  pub target : ParallelTarget
  pub outcome : Outcome

-- `as_completed` yields the futures in the order in which they end. `timed_up` says that it raised
-- after those, because the rest took too long.
pub record Completion : Type 0 where
  pub finished : List Future
  pub timed_up : Bool

module _ {W : Type 0} (took : ℕ → ℕ) (delegator : Delegator W) where
  -- The submitting loop, with the threads' calls of the delegator in the order of submission.
  unfoldable pub submit : ℕ → List ParallelTarget → HopLimit → W → W × List Future
  submit turn [] hops w = (w, [])
  submit turn (t ∷ rest) hops w =
      let (w', r) = delegate_one took delegator w t.agent t.message turn in
      let (w'', more) = submit (turn + 1) rest hops w' in
      if would_exceed hops
      then (w, [])
      else (w'', record { target = t; outcome = returned r } ∷ more)

future_result : Future → Outcome → DelegateResult
future_result f (returned r) = r
future_result f (raised text) = record {
  status = failed;
  agent = f.target.agent;
  reply = "";
  error = "执行异常: " ++ text;
  turn = 0;
  elapsed = 0;
}

unfoldable pub result_of : Future → DelegateResult
unfolding future_result
result_of f = future_result f f.outcome

-- The collecting loop.
unfoldable pub collect : TextHash → List Future → HopLimit → AgentResults → HopLimit × AgentResults
collect hash [] hops rs = (hops, rs)
collect hash (f ∷ rest) hops rs =
    let r = result_of f in
    collect hash rest (if is_ok r then hop_record hash hops f.target.agent r.reply else hops)
      (add rs r)

-- What `run_parallel` comes to: the run, or the `TimeoutError` of `as_completed`.
pub data Parallel (W : Type 0) : Type 0 where
  finished : Run W → Parallel W
  timed_out : W → HopLimit → Parallel W

module _ {W : Type 0} (hash : TextHash) (took : ℕ → ℕ) (delegator : Delegator W) where
  unfoldable pub run_parallel :
      (List Future → Completion) → List ParallelTarget → W → HopLimit → Parallel W
  unfolding submit collect stop
  run_parallel as_completed [] w hops =
      finished (record { world = w; hops = hops; results = no_results })
  run_parallel as_completed (t ∷ rest) w hops =
      let (w', futures) = submit took delegator 0 (t ∷ rest) hops w in
      let completion = as_completed futures in
      let (hops', rs) = collect hash completion.finished hops no_results in
      if would_exceed hops
      then finished (stop hops_exceeded (record { world = w; hops = hops; results = no_results }))
      else if completion.timed_up
      then timed_out w' hops'
      else finished (record { world = w'; hops = hops'; results = rs })
