-- ===== src/Tasks/Ordering.antt =====
-- The order of what the event stream yields.

use night_voyager.Base.{All, ℕ, ◌<◌, ◌≡◌, refl, Bool, true, false, List, [], ◌∷◌, map}
use night_voyager.Tasks.Streaming.{
  TaskPublicEvent, TaskEventPage, Chunk, event_chunk, heartbeat_chunk, Tick, Streamed, advance,
  prepend, streamed, is_finished, next_turn, is_full, is_due, stream_from, stream_task_events,
}

-- Sequence numbers that rise from one above a bound.
abbrev pub Ascending : ℕ → List ℕ → Type 0
Ascending low [] = Unit
Ascending low (n ∷ ns) = (low < n) × Ascending n ns

abbrev pub sequences : List TaskPublicEvent → List ℕ
sequences = map TaskPublicEvent.event_sequence

-- The sequence numbers among the chunks.
abbrev pub yielded : List Chunk → List ℕ
yielded [] = []
yielded (event_chunk e ∷ chunks) = e.event_sequence ∷ yielded chunks
yielded (heartbeat_chunk ∷ chunks) = yielded chunks

-- A page after a cursor: the query gives rising sequence numbers above it.
abbrev pub IsPage : ℕ → TaskEventPage → Type 0
IsPage cursor page = Ascending cursor (sequences page.events)

abbrev pub IsReader : Tick → Type 0
IsReader tick = (cursor : ℕ) → IsPage cursor (tick.load_page cursor)

-- The last number of a sequence, or the bound.
abbrev pub last_of : ℕ → List ℕ → ℕ
last_of low [] = low
last_of low (n ∷ ns) = last_of n ns

-- What holds of a stream from a cursor.
abbrev pub IsOrdered : ℕ → Streamed → Type 0
IsOrdered cursor s =
    Ascending cursor (yielded s.chunks) × (s.cursor ≡ last_of cursor (yielded s.chunks))

next_turn-IsOrdered :
    (reached : ℕ) (finished full due : Bool) (same_beat new_beat : Streamed)
    → IsOrdered reached same_beat
    → IsOrdered reached new_beat
    → IsOrdered reached (next_turn reached finished full due same_beat new_beat)
next_turn-IsOrdered reached true full due s n h k = (tt, refl)
next_turn-IsOrdered reached false true due s n h k = h
next_turn-IsOrdered reached false false true s n h k = k
next_turn-IsOrdered reached false false false s n h k = h

prepend-IsOrdered :
    (cursor : ℕ) (es : List TaskPublicEvent) (s : Streamed)
    → Ascending cursor (sequences es)
    → IsOrdered (advance cursor es) s
    → IsOrdered cursor (prepend (map event_chunk es) s)
prepend-IsOrdered cursor [] s h k = k
prepend-IsOrdered cursor (e ∷ es) s (above, rest) k =
    let (order, last) = prepend-IsOrdered e.event_sequence es s rest k in ((above, order), last)

stream_from-IsOrdered :
    (ticks : List Tick) (cursor last : ℕ) (page : TaskEventPage)
    → IsPage cursor page
    → All IsReader ticks
    → IsOrdered cursor (stream_from cursor last page ticks)
unfolding stream_from
stream_from-IsOrdered [] cursor last page h readers =
    prepend-IsOrdered cursor page.events
      (streamed (advance cursor page.events) (is_finished (advance cursor page.events) page)) h
      (tt, refl)
stream_from-IsOrdered (tick ∷ ticks) cursor last page h (reader, readers) =
    let reached = advance cursor page.events in
    let next = tick.load_page reached in
    prepend-IsOrdered cursor page.events
      (next_turn reached (is_finished reached page) (is_full page) (is_due last tick.now)
        (stream_from reached last next ticks) (stream_from reached tick.now next ticks))
      h
      (next_turn-IsOrdered reached (is_finished reached page) (is_full page) (is_due last tick.now)
        (stream_from reached last next ticks) (stream_from reached tick.now next ticks)
        (stream_from-IsOrdered ticks reached last next (reader reached) readers)
        (stream_from-IsOrdered ticks reached tick.now next (reader reached) readers))

-- Over any number of turns, whose pages hold rising sequence numbers above the cursor that they are
-- read at, the stream yields events in rising order above the client's cursor, none twice, and its
-- own cursor is always that of the last event.
pub stream_task_events-IsOrdered :
    (initial_page : TaskEventPage) (after started : ℕ) (ticks : List Tick)
    → IsPage after initial_page
    → All IsReader ticks
    → IsOrdered after (stream_task_events initial_page after started ticks)
unfolding stream_task_events
stream_task_events-IsOrdered initial_page after started ticks h readers =
    stream_from-IsOrdered ticks after started initial_page h readers
