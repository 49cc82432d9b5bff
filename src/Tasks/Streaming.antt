-- ===== src/Tasks/Streaming.antt =====
-- The event stream of tasks/streaming.py: the cursor that a client sends, the limit of a page, and
-- the loop that yields events and heartbeats. What is read at a turn of the loop, and when, is an
-- argument; the loop is followed for as many turns as are given.
use night_voyager.Base.{
  leb, if◌then◌else◌, ◌==◌, nat_eq, string_eq, option_eq, length, all, is_empty, list_eq, ℕ, ◌+◌,
  ◌-◌, ◌*◌, String, Bool, true, not, ◌&&◌, ◌||◌, Option, none, some, List, [], ◌∷◌, ◌++◌, map,
}
use night_voyager.Base.Results.{Result, ok, err}
use night_voyager.Decision.Intake.{codes, is_digit}
use night_voyager.Tasks.Models.{
  agent_task_state_eq, adapter_failure_code_eq, planning_operation_eq, adapter_id_eq,
  adapter_version_eq, runtime_policy,
}

pub record TaskPublicEvent : Type 0 where
  pub task_id : ℕ
  pub event_sequence : ℕ
  pub event_code : String
  pub status : String
  pub public_code : Option String
  pub attempt_count : ℕ
  pub planning_run_id : Option ℕ
  pub created_at : ℕ

pub record TaskEventPage : Type 0 where
  pub events : List TaskPublicEvent
  pub maximum_sequence : ℕ
  pub closing : Bool

-- `int(raw)` of a text of digits.
abbrev digits_value : ℕ → List ℕ → ℕ
digits_value acc [] = acc
digits_value acc (c ∷ cs) = digits_value (acc * 10 + (c - 48)) cs

-- An ASCII text is decimal exactly if it is one or more of the ten digits.
unfoldable pub parse_last_event_id : Option String → Result ℕ
parse_last_event_id none = ok 0
parse_last_event_id (some raw) =
    if is_empty (codes raw) || not (all is_digit (codes raw))
    then err "invalid_last_event_id"
    else ok (digits_value 0 (codes raw))

-- What the stream yields: an encoded event, or a heartbeat.
pub data Chunk : Type 0 where
  event_chunk : TaskPublicEvent → Chunk
  heartbeat_chunk : Chunk

-- The page that a load gives after a cursor, and the clock before it.
pub record Tick : Type 0 where
  pub load_page : ℕ → TaskEventPage
  pub now : ℕ

-- What was yielded, the cursor, and whether the stream returned.
pub record Streamed : Type 0 where
  pub chunks : List Chunk
  pub cursor : ℕ
  pub returned : Bool

abbrev pub advance : ℕ → List TaskPublicEvent → ℕ
advance cursor [] = cursor
advance cursor (e ∷ es) = advance e.event_sequence es

abbrev pub prepend : List Chunk → Streamed → Streamed
prepend chunks s = record { chunks = chunks ++ s.chunks; cursor = s.cursor; returned = s.returned }

abbrev pub streamed : ℕ → Bool → Streamed
streamed cursor returned = record { chunks = []; cursor = cursor; returned = returned }

abbrev pub is_finished : ℕ → TaskEventPage → Bool
is_finished cursor page = page.closing && leb page.maximum_sequence cursor

-- After the events of a page: return, read the next page at once if this one was full, or wait,
-- with a heartbeat if one is due.
abbrev pub next_turn : ℕ → Bool → Bool → Bool → Streamed → Streamed → Streamed
next_turn reached finished full due same_beat new_beat =
    if finished
    then streamed reached true
    else if full
    then same_beat
    else if due
    then prepend (heartbeat_chunk ∷ []) new_beat
    else same_beat

abbrev pub is_full : TaskEventPage → Bool
is_full page = length page.events == runtime_policy.sse_page_size

abbrev pub is_due : ℕ → ℕ → Bool
is_due last now = leb (last + runtime_policy.sse_heartbeat_seconds) now

-- From the top of the loop.
unfoldable pub stream_from : ℕ → ℕ → TaskEventPage → List Tick → Streamed
stream_from cursor last page [] =
    prepend (map event_chunk page.events)
      (streamed (advance cursor page.events) (is_finished (advance cursor page.events) page))
stream_from cursor last page (tick ∷ ticks) =
    let reached = advance cursor page.events in
    prepend (map event_chunk page.events) (
      next_turn reached (is_finished reached page) (is_full page) (is_due last tick.now)
        (stream_from reached last (tick.load_page reached) ticks)
        (stream_from reached tick.now (tick.load_page reached) ticks))

-- `stream_task_events`, with the clock at its start.
unfoldable pub stream_task_events : TaskEventPage → ℕ → ℕ → List Tick → Streamed
stream_task_events initial_page after started ticks = stream_from after started initial_page ticks
