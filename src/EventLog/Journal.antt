-- ===== src/EventLog/Journal.antt =====
-- `EventLog` of control_plane/application/event_log.py.
use Prim.Native.String.{◌++◌}
use mathlib.Core.List
use ai_agent_desktop.Base.{
  ℕ, zero, suc, ◌+◌, ◌-◌, String, Option, none, some, List, [], ◌∷◌, length, drop, ltb, ◌==◌,
  str_eq, if◌then◌else◌,
}

-- `data` is the text of the payload.
pub record Event : Type 0 where
  pub id : String
  pub event_type : String
  pub source : String
  pub subject : String
  pub time : ℕ
  pub sequence : ℕ
  pub epoch : String
  pub resourceversion : String
  pub correlationid : String
  pub payload : String
  pub operationid : Option String
  pub severity : String

-- An `asyncio.Queue(maxsize=256)` of a subscriber; `handle` is the identity of the object.
pub record Subscriber : Type 0 where
  pub handle : ℕ
  pub queue : List Event

pub record EventLog : Type 0 where
  pub epoch : String
  pub seq : ℕ
  pub events : List Event
  pub subscribers : List Subscriber
  pub retention : ℕ

-- The arguments of `emit`.
pub record Emission : Type 0 where
  pub event_type : String
  pub subject : String
  pub payload : String
  pub correlation_id : String
  pub operation_id : Option String
  pub severity : String
  pub resource_version : Option String

abbrev pub queue_size : ℕ
queue_size = 256

-- `put_nowait` for every subscriber; a full queue loses the event.
unfoldable pub deliver : Event → List Subscriber → List Subscriber
deliver ev [] = []
deliver ev (q ∷ rest) =
    (if ltb (length q.queue) queue_size
      then record q { queue = List.◌++◌ q.queue (ev ∷ []) }
      else q)
    ∷ deliver ev rest

-- `resource_version or f"seq:{seq}"`
version_of : (ℕ → String) → ℕ → Option String → String
version_of show seq none = "seq:" ++ show seq
version_of show seq (some version) = if str_eq version "" then "seq:" ++ show seq else version

-- `show` is Python's decimal text of a number, `id` the fresh `uuid4` and `time` the clock's.
unfoldable pub new_event : (ℕ → String) → String → ℕ → Emission → EventLog → Event
unfolding version_of
new_event show id time m log = record {
  id = id;
  event_type = m.event_type;
  source = "urn:ai-agent-desktop:control-plane";
  subject = m.subject;
  time = time;
  sequence = log.seq + 1;
  epoch = log.epoch;
  resourceversion = version_of show (log.seq + 1) m.resource_version;
  correlationid = m.correlation_id;
  payload = m.payload;
  operationid = m.operation_id;
  severity = m.severity;
}

-- `events[-retention:]`; `-0` is the start of the list.
last_events : ℕ → List Event → List Event
last_events zero events = events
last_events (suc n) events = drop (length events - suc n) events

-- `if len(self._events) > self._retention`
unfoldable pub retain : ℕ → List Event → List Event
unfolding last_events
retain retention events =
    if ltb retention (length events) then last_events retention events else events

unfoldable pub emit : (ℕ → String) → String → ℕ → Emission → EventLog → EventLog × Event
emit show id time m log =
    let ev = new_event show id time m log in
    (
      record log {
        seq = log.seq + 1;
        events = retain log.retention (List.◌++◌ log.events (ev ∷ []));
        subscribers = deliver ev log.subscribers;
      },
      ev,
    )

-- `[e for e in self._events if e.sequence > seq]`
unfoldable pub after_cursor : ℕ → List Event → List Event
after_cursor seq [] = []
after_cursor seq (e ∷ rest) =
    let more = after_cursor seq rest in if ltb seq e.sequence then e ∷ more else more

-- What `subscribe` comes to: the log with the new subscriber, and the events to replay, or
-- `CursorExpired`.
pub data Subscription : Type 0 where
  opened : EventLog → List Event → Subscription
  expired : Subscription

abbrev join : ℕ → EventLog → EventLog
join handle log = record log {
  subscribers = List.◌++◌ log.subscribers (record { handle = handle; queue = [] } ∷ []);
}

at_cursor : ℕ → Option (String × ℕ) → EventLog → Subscription
at_cursor handle none log = expired
at_cursor handle (some (epoch, seq)) log =
    if str_eq epoch log.epoch
    then opened (join handle log) (after_cursor seq log.events)
    else expired

-- `parse` is what `split(":")` and `int` make of a cursor: the epoch and the number (0 for a negative
-- one, which stands before every event as well), or nothing after `ValueError`.
unfoldable pub subscribe :
    (String → Option (String × ℕ)) → ℕ → Option String → EventLog → Subscription
unfolding at_cursor
subscribe parse handle none log = opened (join handle log) []
subscribe parse handle (some cursor) log =
    if str_eq cursor "" then opened (join handle log) [] else at_cursor handle (parse cursor) log

-- `remove` takes the first.
remove_first : ℕ → List Subscriber → List Subscriber
remove_first handle [] = []
remove_first handle (q ∷ rest) = if q.handle == handle then rest else q ∷ remove_first handle rest

unfoldable pub unsubscribe : ℕ → EventLog → EventLog
unfolding remove_first
unsubscribe handle log = record log { subscribers = remove_first handle log.subscribers }
