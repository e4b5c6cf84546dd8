-- ===== src/DualAgent/Sequence.antt =====
-- Which calls the sequential run of dual-agent-fallback/runner.py makes, and what its fuse counts.
use mathlib.Core.List.{append-nil, append_assoc}
use ai_agent_desktop.Base.{
  ℕ, ◌+◌, ◌≤◌, String, ◌≡◌, refl, sym, ◌∙◌, ap, ◌⊎◌, inl, inr, true, false, Option, none, some,
  List, [], ◌∷◌, ◌++◌, length, arith, Bool-cases,
}
use ai_agent_desktop.DualAgent.Delegator.{
  DelegateResult, is_ok, Outcome, returned, raised, Delegator,
}
use ai_agent_desktop.DualAgent.Guard.{TextHash, HopLimit, hop_record, would_exceed, is_stalled}
use ai_agent_desktop.DualAgent.Aggregate.{no_results, add}
use ai_agent_desktop.DualAgent.Runner.{
  delegate_one, SequentialStep, Run, BuildMessage, sequential_loop, run_sequential,
}

-- A call of the delegator, as a log keeps it.
pub record Call : Type 0 where
  pub agent : String
  pub message : String
  pub turn : ℕ

-- A delegator whose world is the log of its calls, over any answers.
abbrev pub logging : (String → String → ℕ → Outcome) → Delegator (List Call)
logging answer log agent message turn = (
  log ++ record { agent = agent; message = message; turn = turn } ∷ [],
  answer agent message turn,
)

-- The call succeeded with this reply.
abbrev pub Answered : (String → String → ℕ → Outcome) → Call → String → Type 0
Answered answer c reply =
    (r : DelegateResult) × (answer c.agent c.message c.turn ≡ returned r)
    × (is_ok r ≡ true)
    × (r.reply ≡ reply)

-- The call raised, or its result is none of a success.
abbrev pub IsFailure : Outcome → Type 0
IsFailure (returned r) = is_ok r ≡ false
IsFailure (raised text) = Unit

-- The fuse on hops is used up, or the stall has been met.
abbrev pub IsFused : HopLimit → Type 0
IsFused hops = (would_exceed hops ≡ true) ⊎ (is_stalled hops ≡ true)

-- `calls` takes the steps in their order from `turn` on, each with the message built from its goal
-- and the reply of the call before. It stops before a step exactly if the guard, which has counted
-- every reply so far, forbids the step, and after a call exactly if that failed.
abbrev pub Dispatches :
    (String → String → ℕ → Outcome)
    → TextHash
    → BuildMessage
    → HopLimit
    → Option String
    → ℕ
    → List SequentialStep
    → List Call
    → Type 0
Dispatches answer hash build hops prior turn [] calls = calls ≡ []
Dispatches answer hash build hops prior turn (step ∷ steps) [] = IsFused hops
Dispatches answer hash build hops prior turn (step ∷ steps) (c ∷ calls) =
    ¬ IsFused hops
    × (c ≡ record { agent = step.agent; message = build step.agent step.goal prior; turn = turn })
    × ((IsFailure (answer c.agent c.message c.turn) × (calls ≡ []))
        ⊎ ((reply : String) × Answered answer c reply
            × Dispatches answer hash build (hop_record hash hops c.agent reply) (some reply)
                (turn + 1) steps calls))

may_go_on : (hops : HopLimit) → would_exceed hops ≡ false → is_stalled hops ≡ false → ¬ IsFused hops
may_go_on hops room live (inl full) = absurd (cc)
may_go_on hops room live (inr stalled) = absurd (cc)

-- A call with a good outcome answered with the reply that the loop passes on.
delegate_one-Answered :
    (answer : String → String → ℕ → Outcome) (took : ℕ → ℕ) (log : List Call) (c : Call)
    → let r = (delegate_one took (logging answer) log c.agent c.message c.turn).1 in
      is_ok r ≡ true → Answered answer c r.reply
unfolding delegate_one is_ok
delegate_one-Answered answer took log c h = go (answer c.agent c.message c.turn) refl
  where
    go :
        (out : Outcome)
        → answer c.agent c.message c.turn ≡ out
        → Answered answer c
            (delegate_one took (logging answer) log c.agent c.message c.turn).1.reply
    go (returned r) e = (r, e, ground arith, ground arith)
    go (raised text) e = cc

-- A call without a good outcome failed.
delegate_one-IsFailure :
    (answer : String → String → ℕ → Outcome) (took : ℕ → ℕ) (log : List Call) (c : Call)
    → let r = (delegate_one took (logging answer) log c.agent c.message c.turn).1 in
      is_ok r ≡ false → IsFailure (answer c.agent c.message c.turn)
unfolding delegate_one is_ok
delegate_one-IsFailure answer took log c h = go (answer c.agent c.message c.turn) refl
  where
    go : (out : Outcome) → answer c.agent c.message c.turn ≡ out → IsFailure out
    go (returned r) e = ground (arith, e, h)
    go (raised text) e = tt

-- The call is put at the end of the log.
delegate_one_log :
    (answer : String → String → ℕ → Outcome) (took : ℕ → ℕ) (log : List Call) (c : Call)
    → (delegate_one took (logging answer) log c.agent c.message c.turn).0 ≡ log ++ c ∷ []
unfolding delegate_one
delegate_one_log answer took log c = refl

module _ (answer : String → String → ℕ → Outcome) (hash : TextHash) (took : ℕ → ℕ)
    (build : BuildMessage) where
  -- The loop from `s` adds calls to the log as `Dispatches` says.
  abbrev Adds : Option String → ℕ → List SequentialStep → Run (List Call) → Type 0
  Adds prior turn steps s =
      (calls : List Call) × ((sequential_loop hash took (logging answer) build prior turn steps
          s).world
        ≡ s.world ++ calls)
      × Dispatches answer hash build s.hops prior turn steps calls

  abbrev call_of : Option String → ℕ → SequentialStep → Call
  call_of prior turn step = record {
    agent = step.agent;
    message = build step.agent step.goal prior;
    turn = turn;
  }

  abbrev result : List Call → Call → DelegateResult
  result log c = (delegate_one took (logging answer) log c.agent c.message c.turn).1

  -- The state after a call that succeeded.
  abbrev next_run : Run (List Call) → SequentialStep → Call → Run (List Call)
  next_run s step c = record {
    world = (delegate_one took (logging answer) s.world c.agent c.message c.turn).0;
    hops = hop_record hash s.hops step.agent (result s.world c).reply;
    results = add s.results (result s.world c);
  }

  Adds-cons :
      (prior : Option String) (turn : ℕ) (step : SequentialStep) (steps : List SequentialStep)
      (s : Run (List Call))
      → let c = call_of prior turn step in
        Adds (some (result s.world c).reply) (turn + 1) steps (next_run s step c)
        → Adds prior turn (step ∷ steps) s
  unfolding sequential_loop
  Adds-cons prior turn step steps s (calls, log, rest) = elim (Bool-cases (would_exceed s.hops)) [
    | inl full ↦ ([], rw full (sym (append-nil _)), inl full)
    | inr room ↦ elim (Bool-cases (is_stalled s.hops)) [
      | inl stalled ↦ ([], rw (room, stalled) (sym (append-nil _)), inr stalled)
      | inr live ↦ elim (Bool-cases (is_ok (result s.world c))) [
        | inl good ↦ (
          c ∷ calls,
          rw (room, live, good)
              (log ∙ ap (λ l. l ++ calls) put ∙ append_assoc s.world (c ∷ []) calls),
          (
            may_go_on s.hops room live,
            refl,
            inr ((result s.world c).reply, delegate_one-Answered answer took s.world c good, rest),
          ),
        )
        | inr bad ↦ (
          c ∷ [],
          rw (room, live, bad) put,
          (
            may_go_on s.hops room live,
            refl,
            inl (delegate_one-IsFailure answer took s.world c bad, refl),
          ),
        )
      ]
    ]
  ]
    where
      c : Call
      c = call_of prior turn step

      put :
          (delegate_one took (logging answer) s.world c.agent c.message c.turn).0
          ≡ s.world ++ c ∷ []
      put = delegate_one_log answer took s.world c

  sequential_loop-Adds :
      (prior : Option String) (turn : ℕ) (steps : List SequentialStep) (s : Run (List Call))
      → Adds prior turn steps s
  unfolding sequential_loop
  sequential_loop-Adds prior turn [] s = ([], sym (append-nil _), refl)
  sequential_loop-Adds prior turn (step ∷ steps) s =
      let c = call_of prior turn step in
      Adds-cons prior turn step steps s
        (sequential_loop-Adds (some (result s.world c).reply) (turn + 1) steps (next_run s step c))

  -- For any answers of the delegator, whether it returns or raises: the calls that a sequential run
  -- adds to the log take the steps in their given order from the first on, with turns 0, 1, 2 …;
  -- each message is built from its step's goal and the reply of the call just before (none for the
  -- first). The run stops after a call that failed, and before a step for which the guard, with the
  -- replies so far recorded, shows the fuse used up or a stall; it stops nowhere else before its end.
  pub sequential_order :
      (steps : List SequentialStep) (log : List Call) (hops : HopLimit)
      → (calls : List Call) × ((run_sequential hash took
            (logging answer)
            build
            steps
            log
            hops).world
          ≡ log ++ calls)
        × Dispatches answer hash build hops none 0 steps calls
  unfolding run_sequential
  sequential_order steps log hops =
      sequential_loop-Adds none 0 steps (record { world = log; hops = hops; results = no_results })

module _ {W : Type 0} (hash : TextHash) (took : ℕ → ℕ) (delegator : Delegator W)
    (build : BuildMessage) where
  hop_record_counts :
      (h : HopLimit) (agent reply : String)
      → ((hop_record hash h agent reply).hop_count ≡ h.hop_count + 1)
        × ((hop_record hash h agent reply).max_hops ≡ h.max_hops)
  unfolding hop_record
  hop_record_counts h agent reply = (ground arith, ground arith)

  IsCapped : HopLimit → List SequentialStep → HopLimit → Type 0
  IsCapped h steps h' =
      (h'.hop_count ≤ h.max_hops)
      × (h.hop_count ≤ h'.hop_count)
      × (h'.hop_count ≤ h.hop_count + length steps)

  sequential_loop-IsCapped :
      (prior : Option String) (turn : ℕ) (steps : List SequentialStep) (s : Run W)
      → s.hops.hop_count ≤ s.hops.max_hops
      → IsCapped s.hops steps (sequential_loop hash took delegator build prior turn steps s).hops
  unfolding sequential_loop would_exceed IsCapped
  sequential_loop-IsCapped prior turn [] s h = (h, omega arith, omega arith)
  sequential_loop-IsCapped prior turn (step ∷ steps) s h =
      let (w, r) =
        delegate_one took delegator s.world step.agent (build step.agent step.goal prior) turn in
      let next : Run W = record {
        world = w;
        hops = hop_record hash s.hops step.agent r.reply;
        results = add s.results r;
      } in
      ground (
        arith,
        hop_record_counts s.hops step.agent r.reply,
        sequential_loop-IsCapped (some r.reply) (turn + 1) steps next,
      )

  -- A sequential run that starts within the fuse never takes the hop count over `max_hops`, lets it
  -- only grow, and by at most one for each step.
  pub sequential_capped :
      (steps : List SequentialStep) (w : W) (hops : HopLimit)
      → hops.hop_count ≤ hops.max_hops
      → let hops' = (run_sequential hash took delegator build steps w hops).hops in
        (hops'.hop_count ≤ hops.max_hops)
        × (hops.hop_count ≤ hops'.hop_count)
        × (hops'.hop_count ≤ hops.hop_count + length steps)
  unfolding run_sequential IsCapped
  sequential_capped steps w hops h =
      sequential_loop-IsCapped none 0 steps
        (record { world = w; hops = hops; results = no_results }) h
