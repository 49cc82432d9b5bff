-- ===== src/Leases/Journal.antt =====
-- The events of a task: numbered 1, 2, 3, ... in the order of their insertion, and never rewritten.
use mathlib.Core.List.{append_assoc, append-nil}
use night_voyager.Base.{
  length, ℕ, ◌+◌, String, ◌≡◌, refl, sym, ap, ◌∙◌, Option, List, [], ◌∷◌, ◌++◌, arith,
}
use night_voyager.Planning.Models.{Uuid}
use night_voyager.Leases.Rows.{EventRow, Task, last_sequence, append_agent_task_event}
use night_voyager.Leases.Calls.{begun, renewed, requeued, ended_by, cancelled_at}
use night_voyager.Leases.Claim.{unpinned, given_up, leased_by, reclaimed_by}
use night_voyager.Leases.Finalize.{finalized}
use night_voyager.Leases.Steps.{
  Effect, drops, unpins, postpones, exhausts, reclaims, leases, begins, renews, requeues, ends,
  stores, repeats, aborts,
}

-- The events are those with the numbers after `k`, in order.
abbrev pub IsDense : ℕ → List EventRow → Type 0
IsDense k [] = Unit
IsDense k (e ∷ es) = (e.event_sequence ≡ k + 1) × IsDense (k + 1) es

last_sequence-dense :
    (k : ℕ) (e : EventRow) (es : List EventRow)
    → IsDense k (e ∷ es)
    → last_sequence (e ∷ es) ≡ k + length (e ∷ es)
last_sequence-dense k e [] (at, _) = ground (arith, at)
last_sequence-dense k e (d ∷ es) (at, rest) =
    ground (arith, at, last_sequence-dense (k + 1) d es rest)

IsDense-snoc :
    (k : ℕ) (es : List EventRow) (e : EventRow)
    → IsDense k es
    → e.event_sequence ≡ k + length es + 1
    → IsDense k (es ++ (e ∷ []))
IsDense-snoc k [] e dense at = (omega (arith, at), tt)
IsDense-snoc k (d ∷ es) e (first, dense) at =
    (first, IsDense-snoc (k + 1) es e dense (omega (arith, at)))

last_sequence-length : (es : List EventRow) → IsDense 0 es → last_sequence es ≡ length es
last_sequence-length [] dense = refl
last_sequence-length (e ∷ es) dense = omega (arith, last_sequence-dense 0 e es dense)

-- A journal, and the same one with more events at its end.
pub data Appends (es : List EventRow) : List EventRow → Type 0 where
  unchanged : Appends es es
  appended :
      (event status code : String) (attempt : ℕ) (result : Option Uuid) {vs : List EventRow}
      → Appends es vs
      → Appends es (append_agent_task_event event status code attempt result vs)

append_agent_task_event-IsDense :
    (event status code : String) (attempt : ℕ) (result : Option Uuid) (vs : List EventRow)
    → IsDense 0 vs
    → IsDense 0 (append_agent_task_event event status code attempt result vs)
unfolding append_agent_task_event
append_agent_task_event-IsDense event status code attempt result vs dense =
    IsDense-snoc 0 vs _ dense (omega (arith, last_sequence-length vs dense))

pub Appends-IsDense : {es vs : List EventRow} → Appends es vs → IsDense 0 es → IsDense 0 vs
Appends-IsDense unchanged dense = dense
Appends-IsDense (appended event status code attempt result more) dense =
    append_agent_task_event-IsDense event status code attempt result _ (Appends-IsDense more dense)

-- The events so far are a prefix of those later.
abbrev pub IsPrefix : List EventRow → List EventRow → Type 0
IsPrefix es vs = (more : List EventRow) × (vs ≡ es ++ more)

prefix-snoc : (es vs ws : List EventRow) → IsPrefix es vs → IsPrefix es (vs ++ ws)
prefix-snoc es vs ws (more, same) = (more ++ ws, ap (λ v. v ++ ws) same ∙ append_assoc es more ws)

pub Appends-IsPrefix : {es vs : List EventRow} → Appends es vs → IsPrefix es vs
unfolding append_agent_task_event
Appends-IsPrefix {es} unchanged = ([], sym (append-nil es))
Appends-IsPrefix {es} (appended event status code attempt result {vs} more) =
    prefix-snoc es vs _ (Appends-IsPrefix more)

pub Effect-Appends : {t : Task} {now : ℕ} {u : Task} → Effect t now u → Appends t.events u.events
unfolding unpinned given_up reclaimed_by leased_by begun renewed requeued ended_by finalized
    cancelled_at
Effect-Appends (drops _) = unchanged
Effect-Appends (unpins _) = appended _ _ _ _ _ unchanged
Effect-Appends (postpones _) = unchanged
Effect-Appends (exhausts _ _ _ _) = appended _ _ _ _ _ unchanged
Effect-Appends (reclaims _ _ _ _ _ _) = appended _ _ _ _ _ (appended _ _ _ _ _ unchanged)
Effect-Appends (leases _ _ _ _) = appended _ _ _ _ _ unchanged
Effect-Appends (begins _ _ _ _ _ _) = appended _ _ _ _ _ unchanged
Effect-Appends (renews _ _ _ _) = unchanged
Effect-Appends (requeues _ _ _ _ _ _ _) = appended _ _ _ _ _ unchanged
Effect-Appends (ends _ _ _ _ _ _) = appended _ _ _ _ _ unchanged
Effect-Appends (stores _ _ _ _ _ _) = appended _ _ _ _ _ unchanged
Effect-Appends repeats = unchanged
Effect-Appends (aborts _ _) = appended _ _ _ _ _ unchanged
