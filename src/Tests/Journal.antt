-- ===== src/Tests/Journal.antt =====
-- The journal of control_plane/application/event_log.py at concrete inputs.
use ai_agent_desktop.Base.{
  ℕ, ◌+◌, ◌-◌, min, String, ◌≡◌, refl, Option, none, some, List, [], arith, length,
}
use ai_agent_desktop.EventLog.Journal.{Event, EventLog, Emission, emit, opened, subscribe}
use ai_agent_desktop.EventLog.Replay.{IsJournal, NumberedFrom, emit-IsJournal, replay_length}

abbrev shown : ℕ → String
shown n = "n"

abbrev started : Emission
started = record {
  event_type = "component.started";
  subject = "components/hermes";
  payload = "{}";
  correlation_id = "c-1";
  operation_id = none;
  severity = "info";
  resource_version = none;
}

abbrev new_log : EventLog
new_log = record { epoch = "e1"; seq = 0; events = []; subscribers = []; retention = 2 }

new_log-IsJournal : IsJournal new_log
new_log-IsJournal = record {
  first = 1;
  numbered = tt;
  up_to = refl;
  positive = omega arith;
  bounded = omega arith;
}

-- The log after two events.
abbrev second_log : EventLog
second_log = (emit shown "id-2" 6 started (emit shown "id-1" 5 started new_log).0).0

-- The log after three, of which it holds two.
abbrev third_log : EventLog
third_log = (emit shown "id-3" 7 started second_log).0

third_log-IsJournal : IsJournal third_log
unfolding emit
third_log-IsJournal =
    let first = emit-IsJournal shown "id-1" 5 started new_log (omega arith) new_log-IsJournal in
    let second =
      emit-IsJournal shown "id-2" 6 started (emit shown "id-1" 5 started new_log).0 (omega arith)
        first.0 in
    (emit-IsJournal shown "id-3" 7 started second_log (omega arith) second.0).0

-- The cursor "e1:0".
abbrev parsed : String → Option (String × ℕ)
parsed cursor = some ("e1", 0)

-- Three events came after the cursor, and two are replayed.
replay_length_example :
    (log' : EventLog) × (replay : List Event) × (subscribe parsed 1 (some "e1:0") third_log
      ≡ opened log' replay)
    × (length replay ≡ min (third_log.seq - 0) (length third_log.events))
    × NumberedFrom (third_log.seq + 1 - length replay) replay
unfolding emit
replay_length_example =
    replay_length parsed 1 0 "e1:0" third_log third_log-IsJournal refl refl (omega arith)
