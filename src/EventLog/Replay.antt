-- ===== src/EventLog/Replay.antt =====
-- What the journal of control_plane/application/event_log.py holds, and what a cursor replays.
use ai_agent_desktop.Base.{
  ℕ, zero, suc, ◌+◌, ◌-◌, ◌≤◌, ◌<◌, min, String, ◌≡◌, refl, subst, false, Option, some, List, [],
  ◌∷◌, ◌++◌, arith, length, drop, length-append, length-drop, ltb, str_eq, Bool-cases, inl, inr,
  eq_refl,
}
use ai_agent_desktop.EventLog.Journal.{
  Event, EventLog, Emission, new_event, retain, emit, after_cursor, opened, subscribe,
}

-- The events are numbered one after the other from `n` on.
abbrev pub NumberedFrom : ℕ → List Event → Type 0
NumberedFrom n [] = Unit
NumberedFrom n (e ∷ rest) = (e.sequence ≡ n) × NumberedFrom (n + 1) rest

NumberedFrom-append :
    (n : ℕ) (xs : List Event) (e : Event)
    → NumberedFrom n xs
    → e.sequence ≡ n + length xs
    → NumberedFrom n (xs ++ e ∷ [])
NumberedFrom-append n [] e h k = (omega arith, tt)
NumberedFrom-append n (x ∷ xs) e h k = (h.0, NumberedFrom-append (n + 1) xs e h.1 (omega arith))

NumberedFrom-drop :
    (n k : ℕ) (xs : List Event)
    → k ≤ length xs
    → NumberedFrom n xs
    → NumberedFrom (n + k) (drop k xs)
NumberedFrom-drop n zero xs h w = subst (λ t. NumberedFrom t xs) (omega arith) w
NumberedFrom-drop n (suc k) [] h w = tt
NumberedFrom-drop n (suc k) (x ∷ xs) h w =
    subst (λ t. NumberedFrom t (drop k xs)) (omega arith)
      (NumberedFrom-drop (n + 1) k xs (omega arith) w.1)

-- The log keeps the last events, at most `retention`, numbered up to `seq` without a gap.
pub record IsJournal (log : EventLog) : Type 0 where
  pub first : ℕ
  pub numbered : NumberedFrom first log.events
  pub up_to : first + length log.events ≡ log.seq + 1
  pub positive : 0 < first
  pub bounded : length log.events ≤ log.retention

-- What is kept of a list of events numbered from `first` on.
retain-numbered :
    (retention first : ℕ) (events : List Event)
    → 0 < retention
    → NumberedFrom first events
    → (start : ℕ) × NumberedFrom start (retain retention events)
      × (start + length (retain retention events) ≡ first + length events)
      × (first ≤ start)
      × (length (retain retention events) ≤ retention)
unfolding retain
retain-numbered zero first events h w = absurd (omega arith)
retain-numbered (suc n) first events h w = elim (Bool-cases (ltb (suc n) (length events))) [
  | inl more ↦
      let over : suc n < length events = ground arith in
      let kept = length-drop (length events - suc n) events in
      rw more (
        first + (length events - suc n),
        NumberedFrom-drop first (length events - suc n) events (omega arith) w,
        omega (arith, kept),
        omega arith,
        omega (arith, kept),
      )
  | inr fits ↦ rw fits (first, w, refl, omega arith, ground arith)
]

pub emit-IsJournal :
    (show : ℕ → String) (id : String) (time : ℕ) (m : Emission) (log : EventLog)
    → 0 < log.retention
    → IsJournal log
    → IsJournal (emit show id time m log).0 × ((emit show id time m log).1.sequence ≡ log.seq + 1)
unfolding emit new_event
emit-IsJournal show id time m log some_kept j =
    let ev = new_event show id time m log in
    let (start, numbered, up_to, later, bounded) =
      retain-numbered log.retention j.first (log.events ++ ev ∷ []) some_kept
        (NumberedFrom-append j.first log.events ev j.numbered (omega (arith, j.up_to))) in
    (
      record {
        first = start;
        numbered = numbered;
        up_to = omega (arith, up_to, length-append log.events (ev ∷ []), j.up_to);
        positive = omega (arith, later, j.positive);
        bounded = bounded;
      },
      refl,
    )

-- A cursor before the first event replays them all.
after_cursor-all :
    (seq n : ℕ) (events : List Event)
    → seq < n
    → NumberedFrom n events
    → after_cursor seq events ≡ events
unfolding after_cursor
after_cursor-all seq n [] before w = refl
after_cursor-all seq n (e ∷ events) before w =
    let rest = after_cursor-all seq (n + 1) events (omega arith) w.1 in ground (arith, w.0, rest)

-- A cursor replays the events after it that are held, which are the last ones.
after_cursor-numbered :
    (seq n : ℕ) (events : List Event)
    → NumberedFrom n events
    → (length (after_cursor seq events) ≡ min (n + length events - (seq + 1)) (length events))
      × NumberedFrom
          (n + length events - length (after_cursor seq events))
          (after_cursor seq events)
unfolding after_cursor
after_cursor-numbered seq n [] w = (omega arith, tt)
after_cursor-numbered seq n (e ∷ events) w = elim (Bool-cases (ltb seq e.sequence)) [
  | inl before ↦
      let new : seq < n = ground (arith, w.0, before) in
      let all = after_cursor-all seq (n + 1) events (omega arith) w.1 in
      rw before (rw all (omega arith, subst (λ t. NumberedFrom t (e ∷ events)) (omega arith) w))
  | inr after ↦
      let old : n ≤ seq = ground (arith, w.0, after) in
      let rest = after_cursor-numbered seq (n + 1) events w.1 in
      rw after (
        omega (arith, rest.0),
        subst (λ t. NumberedFrom t (after_cursor seq events)) (omega (arith, rest.0)) rest.1,
      )
]

-- A cursor of the journal's epoch always opens a stream, never an expired cursor, and replays the
-- last events after the cursor: all of them, if they are still held, and otherwise only those that
-- are, so of a cursor that is older than the journal's first event some are lost.
pub replay_length :
    (parse : String → Option (String × ℕ)) (handle seq : ℕ) (cursor : String) (log : EventLog)
    → IsJournal log
    → str_eq cursor "" ≡ false
    → parse cursor ≡ some (log.epoch, seq)
    → seq ≤ log.seq
    → (log' : EventLog) × (replay : List Event) × (subscribe parse handle (some cursor) log
        ≡ opened log' replay)
      × (length replay ≡ min (log.seq - seq) (length log.events))
      × NumberedFrom (log.seq + 1 - length replay) replay
unfolding subscribe
replay_length parse handle seq cursor log j given read old =
    let after = after_cursor-numbered seq j.first log.events j.numbered in
    (
      record log { subscribers = log.subscribers ++ record { handle = handle; queue = [] } ∷ [] },
      after_cursor seq log.events,
      (rw given (rw read (rw (eq_refl log.epoch) refl))),
      omega (arith, after.0, j.up_to),
      subst (λ t. NumberedFrom t (after_cursor seq log.events)) (omega (arith, after.0, j.up_to))
          after.1,
    )
