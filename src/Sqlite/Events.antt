-- ===== src/Sqlite/Events.antt =====
-- sqlite_events.go: `SQLiteEventStore`, on the table `workflow_events`, and the event log of
-- memory_store.go beside it.
--
-- The rows stand in the order of their ids, since each insertion draws the next number.
use fluxo.Common.{
  ℕ, ◌+◌, ◌≡◌, ◌≢◌, String, Option, none, some, List, [], ◌∷◌, ◌++◌, arith, All, lookup,
  lookup-insert, ◌==◌, ◌==ₛ◌, eq_iff, if◌then◌else◌,
}
use fluxo.Api.{Err, Result, value, error, WorkflowEvent}
use fluxo.Store.{Store, or_empty}
use fluxo.Store

-- The table, whose columns beside `id` are the event's fields, and the last number of its
-- sequence.
pub record Events : Type 0 where
  pub sequence : ℕ
  pub rows : List (ℕ × WorkflowEvent)

unfoldable pub new_log : Events
new_log = record { sequence = 0; rows = [] }

-- `at := ev.At`, or the time of the call for the zero time.
abbrev pub timed : ℕ → WorkflowEvent → WorkflowEvent
timed now ev = record ev { time = if ev.time == 0 then now else ev.time }

unfoldable pub append_event : Option Err → ℕ → WorkflowEvent → Events → Events × Option Err
append_event (some e) now ev log = (log, some e)
append_event none now ev log = (
  record { sequence = log.sequence + 1; rows = log.rows ++ (log.sequence + 1, timed now ev) ∷ [] },
  none,
)

-- `WHERE instance_id = ?`, and the loop over the rows.
unfoldable pub events_of : String → List (ℕ × WorkflowEvent) → List WorkflowEvent
events_of id [] = []
events_of id ((n, ev) ∷ rows) =
    if ev.instance_id ==ₛ id then ev ∷ events_of id rows else events_of id rows

unfoldable pub list_events : Option Err → String → Events → Result (List WorkflowEvent)
unfolding events_of
list_events (some e) id log = error e
list_events none id log = value (events_of id log.rows)

-- Events appended one after the other, each at its time.
unfoldable pub append_all : List (ℕ × WorkflowEvent) → Events → Events
unfolding append_event
append_all [] log = log
append_all ((now, ev) ∷ evs) log = append_all evs (append_event none now ev log).0

-- The same events, in memory.
unfoldable pub append_all_memory : List (ℕ × WorkflowEvent) → Store → Store
append_all_memory [] s = s
append_all_memory ((now, ev) ∷ evs) s = append_all_memory evs (Store.append_event ev s)

events_of-last :
    (id : String) (rows : List (ℕ × WorkflowEvent)) (n : ℕ) (ev : WorkflowEvent)
    → events_of id (rows ++ (n, ev) ∷ [])
      ≡ (if ev.instance_id ==ₛ id then events_of id rows ++ ev ∷ [] else events_of id rows)
unfolding events_of
events_of-last id [] n ev = ground arith
events_of-last id ((m, first) ∷ rows) n ev = ground (arith, events_of-last id rows n ev)

-- The log in the database and the one in memory hold the same events of each instance.
abbrev pub SameLog : Events → Store → Type 0
SameLog log s = (id : String) → events_of id log.rows ≡ Store.list_events id s

append_event-SameLog :
    (now : ℕ) (ev : WorkflowEvent) (log : Events) (s : Store)
    → ev.time ≢ 0
    → SameLog log s
    → SameLog (append_event none now ev log).0 (Store.append_event ev s)
unfolding append_event Store.append_event Store.list_events
append_event-SameLog now ev log s dated same id =
    let kept : timed now ev ≡ ev = ground arith in
    let old = or_empty (lookup ev.instance_id s.events) ++ ev ∷ [] in
    ground (
      arith,
      kept,
      same id,
      same ev.instance_id,
      eq_iff ev.instance_id id,
      events_of-last id log.rows (log.sequence + 1) (timed now ev),
      lookup-insert ev.instance_id id old s.events,
    )

-- From logs that hold the same events, whatever dated events are appended, at whatever times, the
-- database and the memory list the same events of each instance, in the same order.
pub append_all-SameLog :
    (evs : List (ℕ × WorkflowEvent)) (log : Events) (s : Store)
    → All (λ e. e.1.time ≢ 0) evs
    → SameLog log s
    → SameLog (append_all evs log) (append_all_memory evs s)
unfolding append_all append_all_memory
append_all-SameLog [] log s dated same = same
append_all-SameLog ((now, ev) ∷ evs) log s (first, rest) same =
    append_all-SameLog evs (append_event none now ev log).0 (Store.append_event ev s) rest
      (append_event-SameLog now ev log s first same)
