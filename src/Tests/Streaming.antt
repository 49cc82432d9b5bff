-- ===== src/Tests/Streaming.antt =====
-- A stream of three events over two turns, with a heartbeat between.
use mathlib.Core.Path.{subst}
use night_voyager.Base.{
  ltb, if◌then◌else◌, Bool-cases, ℕ, ◌≡◌, refl, sym, inl, inr, true, false, none, some, [], ◌∷◌,
  arith,
}
use night_voyager.Base.Results.{ok}
use night_voyager.Tasks.Streaming.{
  TaskPublicEvent, TaskEventPage, parse_last_event_id, event_chunk, heartbeat_chunk, Tick,
  stream_from, stream_task_events,
}
use night_voyager.Tasks.Ordering.{
  Ascending, sequences, IsPage, IsOrdered, stream_task_events-IsOrdered,
}

abbrev event : ℕ → TaskPublicEvent
event n = record {
  task_id = 95;
  event_sequence = n;
  event_code = "task_started";
  status = "preparing";
  public_code = none;
  attempt_count = 1;
  planning_run_id = none;
  created_at = n;
}

abbrev first_page : TaskEventPage
first_page = record { events = event 1 ∷ event 2 ∷ []; maximum_sequence = 2; closing = false }

-- After the second event there is a third, and the task is done.
abbrev last_page : ℕ → TaskEventPage
last_page cursor = record {
  events = if ltb cursor 3 then event 3 ∷ [] else [];
  maximum_sequence = 3;
  closing = true;
}

abbrev tick : Tick
tick = record { load_page = last_page; now = 20 }

three_events :
    (stream_task_events first_page 0 0 (tick ∷ [])).chunks
    ≡ (event_chunk (event 1) ∷ event_chunk (event 2) ∷ heartbeat_chunk ∷ event_chunk (event 3) ∷ [])
unfolding stream_task_events stream_from
three_events = refl

cursor_text : parse_last_event_id (some "0042") ≡ ok 42
unfolding parse_last_event_id
cursor_text = refl

first_page-IsPage : IsPage 0 first_page
first_page-IsPage = (omega arith, (omega arith, tt))

page_of_more : (cursor : ℕ) → ltb cursor 3 ≡ true → (last_page cursor).events ≡ (event 3 ∷ [])
page_of_more cursor h = rw h

page_of_done : (cursor : ℕ) → ltb cursor 3 ≡ false → (last_page cursor).events ≡ []
page_of_done cursor h = rw h

last_page-IsPage : (cursor : ℕ) → IsPage cursor (last_page cursor)
last_page-IsPage cursor = elim (Bool-cases (ltb cursor 3)) [
  | inl more ↦
      subst (λ es. Ascending cursor (sequences es)) (sym (page_of_more cursor more))
        (ground arith, tt)
  | inr done ↦ subst (λ es. Ascending cursor (sequences es)) (sym (page_of_done cursor done)) tt
]

stream_task_events-IsOrdered_example : IsOrdered 0 (stream_task_events first_page 0 0 (tick ∷ []))
stream_task_events-IsOrdered_example =
    stream_task_events-IsOrdered first_page 0 0 (tick ∷ []) first_page-IsPage (last_page-IsPage, tt)
