-- ===== src/Leases/Accounts.antt =====
-- Every effect keeps the executions of a task in order.
use night_voyager.Leases.Steps.{
  Effect, drops, unpins, postpones, exhausts, reclaims, leases, begins, renews, requeues, ends,
  stores, repeats, aborts,
}
use mathlib.Core.Path.{subst}
use night_voyager.Base.{
  All, ℕ, ◌-◌, String, ◌≡◌, refl, sym, inl, inr, true, false, some, List, [], ◌∷◌, arith,
}
use night_voyager.Planning.Models.{Uuid}
use night_voyager.Planning.Enums.{RunState}
use night_voyager.Tasks.Models.{AgentTaskState}
use night_voyager.Leases.Rows.{ExecutionRow, EventRow, TaskRow, Task, is_leased, is_closed}
use night_voyager.Leases.Calls.{
  ended, update_generation, is_open, update_open, left, begun, renewed, terminal_state_named,
  execution_status, requeued, ended_by, cancelled_at,
}
use night_voyager.Leases.Claim.{
  unpinned, given_up, new_execution, leased_row, leased_by, reclaimed_by,
}
use night_voyager.Leases.Finalize.{target_state, target_execution, finalized}
use night_voyager.Leases.Places.{IsPlaced, IsHeld-place}
use night_voyager.Leases.Ledger.{
  IsNumbered, IsEnded, IsLast, IsCurrent, IsLedger, Split, Split-IsLedger, join-IsLedger,
  update_generation-old, update_open-ended,
}

execution_status-ended : (s : AgentTaskState) → is_open (execution_status s) ≡ false
unfolding execution_status is_open
execution_status-ended s = ground arith

target_execution-ended : (s : RunState) → is_open (target_execution s) ≡ false
unfolding target_execution is_open
target_execution-ended s = ground arith

terminal_state_named-leased : (code : String) → is_leased (terminal_state_named code) ≡ false
unfolding terminal_state_named is_leased
terminal_state_named-leased code = ground arith

target_state-leased : (s : RunState) → is_leased (target_state s) ≡ false
unfolding target_state is_leased
target_state-leased s = ground arith

module _ (t : Task) (s : Split t) where
  -- The update by the generation of the lease changes the last execution alone.
  generation-last :
      (generation : ℕ) (change : ExecutionRow → ExecutionRow)
      → t.row.attempt_count ≡ generation
      → update_generation generation change t.executions ≡ change s.last ∷ s.before
  unfolding update_generation
  generation-last generation change same =
      let rest =
        update_generation-old (t.row.attempt_count - 1) generation change s.before s.numbered
          (omega (arith, same, s.positive)) in
      ground (arith, rest, s.split, s.generation, same)

  open-last :
      (generation : ℕ) (change : ExecutionRow → ExecutionRow)
      → t.row.attempt_count ≡ generation
      → is_open s.last.status ≡ true
      → update_open generation change t.executions ≡ change s.last ∷ s.before
  unfolding update_open
  open-last generation change same opened =
      let rest = update_open-ended generation change s.before s.ended_before in
      ground (arith, rest, s.split, s.generation, same, opened)

  -- The last execution changes, and keeps its numbers.
  change-IsLedger :
      (u : Task) (e : ExecutionRow)
      → u.executions ≡ e ∷ s.before
      → u.row.attempt_count ≡ t.row.attempt_count
      → e.attempt_no ≡ s.last.attempt_no
      → e.lease_generation ≡ s.last.lease_generation
      → IsLast u.row e
      → IsLedger u
  change-IsLedger u e same count attempt generation is_last =
      join-IsLedger u e s.before same (omega (arith, attempt, count, s.attempt))
        (omega (arith, generation, count, s.generation)) (omega (arith, count, s.positive))
        (subst (λ n. IsNumbered (n - 1) s.before) (sym count) s.numbered) is_last s.ended_before

-- A task that nobody holds has no open execution, while it is in the queue.
waiting-IsEnded :
    (row : TaskRow) (es : List ExecutionRow)
    → IsCurrent row es
    → row.state ≡ AgentTaskState.queued
    → All IsEnded es
unfolding is_leased is_closed
waiting-IsEnded row [] current queue = tt
waiting-IsEnded row (e ∷ es) (inl (held, _), over) queue = absurd (ground arith)
waiting-IsEnded row (e ∷ es) (inr (_, inl closed), over) queue = (closed, over)
waiting-IsEnded row (e ∷ es) (inr (_, inr (closed, _)), over) queue = absurd (ground arith)

-- The last execution of a held task is open.
held-open : (t : Task) (s : Split t) → is_leased t.row.state ≡ true → is_open s.last.status ≡ true
held-open t s held = elim s.is_last [
  | inl (_, opened) ↦ opened
  | inr (free, _) ↦ absurd (ground (arith, held, free))
]

unpinned-IsCurrent :
    (row : TaskRow) (es : List ExecutionRow)
    → IsCurrent row es
    → IsCurrent (left AgentTaskState.failed (some "skill_pin_invalid") row) es
unfolding left is_leased is_closed
unpinned-IsCurrent row [] current = refl
unpinned-IsCurrent row (e ∷ es) (_, over) = (inr (refl, inr (refl, refl)), over)

ended-IsCurrent :
    (row : TaskRow) (es : List ExecutionRow)
    → is_leased row.state ≡ false
    → All IsEnded es
    → IsCurrent row es
ended-IsCurrent row [] free over = free
ended-IsCurrent row (e ∷ es) free (closed, over) = (inr (free, inl closed), over)

-- A new execution comes before ended ones.
new_execution-IsLedger :
    (t : Task) (worker : String) (id : Uuid) (now : ℕ) (es : List ExecutionRow) (vs : List EventRow)
    → IsPlaced t
    → IsNumbered t.row.attempt_count es
    → All IsEnded es
    → IsLedger (leased_by worker id now es vs t).task
unfolding leased_by leased_row new_execution is_leased is_open
new_execution-IsLedger t worker id now es vs p numbered over = record {
  numbered = (
    refl,
    omega (arith, p.counted),
    omega arith,
    subst (λ n. IsNumbered n es) (omega arith) numbered,
  );
  current = (inl (refl, refl), over);
}

-- Every effect on a task in its place keeps its executions in order.
pub Effect-IsLedger :
    {t : Task} {now : ℕ} {u : Task} → Effect t now u → IsPlaced t → IsLedger t → IsLedger u
unfolding unpinned given_up reclaimed_by begun renewed requeued ended_by finalized cancelled_at left
    ended is_leased is_open is_closed
Effect-IsLedger {t} {u} (drops over) p v = record { numbered = v.numbered; current = v.current }
Effect-IsLedger {t} {u} (unpins live) p v = record {
  numbered = v.numbered;
  current = unpinned-IsCurrent t.row t.executions v.current;
}
Effect-IsLedger {t} {u} (postpones held) p v = record { numbered = v.numbered; current = v.current }
Effect-IsLedger {t} {u} (exhausts now held past spent) p v =
    let s = Split-IsLedger t v (IsHeld-place t p held).3 in
    change-IsLedger t s u _ (open-last t s _ _ (sym p.counted) (held-open t s held)) refl refl refl
      (inr (refl, inl refl))
Effect-IsLedger {t} {u} (reclaims worker id now held past early) p v =
    let s = Split-IsLedger t v (IsHeld-place t p held).3 in
    let same = open-last t s _ _ (sym p.counted) (held-open t s held) in
    new_execution-IsLedger t worker id now _ _ p
      (subst (IsNumbered t.row.attempt_count) (sym same)
        (s.attempt, s.generation, s.positive, s.numbered))
      (subst (All IsEnded) (sym same) (refl, s.ended_before))
Effect-IsLedger {t} {u} (leases worker id now waiting) p v =
    new_execution-IsLedger t worker id now _ _ p v.numbered
      (waiting-IsEnded t.row t.executions v.current waiting)
Effect-IsLedger {t} {u} (begins worker generation input_sha256 now holder at) p v =
    let s = Split-IsLedger t v (IsHeld-place t p holder.leased).3 in
    change-IsLedger t s u _
      (generation-last t s generation _ (omega (arith, p.counted, holder.current))) refl refl refl
      (inl (refl, refl))
Effect-IsLedger {t} {u} (renews worker generation now holder) p v =
    let s = Split-IsLedger t v (IsHeld-place t p holder.leased).3 in
    change-IsLedger t s u s.last s.split refl refl refl s.is_last
Effect-IsLedger {t} {u} (requeues worker generation code fallback_used now holder early) p v =
    let s = Split-IsLedger t v (IsHeld-place t p holder.leased).3 in
    change-IsLedger t s u _
      (generation-last t s generation _ (omega (arith, p.counted, holder.current))) refl refl refl
      (inr (refl, inl refl))
Effect-IsLedger {t} {u} (ends worker generation code fallback_used now holder) p v =
    let s = Split-IsLedger t v (IsHeld-place t p holder.leased).3 in
    change-IsLedger t s u _
      (generation-last t s generation _ (omega (arith, p.counted, holder.current))) refl refl refl
      (inr (
        terminal_state_named-leased code,
        inl (execution_status-ended (terminal_state_named code)),
      ))
Effect-IsLedger {t} {u} (stores worker generation result now holder valid) p v =
    let s = Split-IsLedger t v (IsHeld-place t p holder.leased).3 in
    change-IsLedger t s u _
      (generation-last t s generation _ (omega (arith, p.counted, holder.current))) refl refl refl
      (inr (target_state-leased result.state, inl (target_execution-ended result.state)))
Effect-IsLedger {t} {u} repeats p v = v
Effect-IsLedger {t} {u} (aborts now live) p v = elim p.place [
  | inl waiting ↦
      let over = waiting-IsEnded t.row t.executions v.current waiting.0 in
      let same = update_open-ended t.row.lease_generation _ t.executions over in
      record {
        numbered = subst (IsNumbered t.row.attempt_count) (sym same) v.numbered;
        current = subst (IsCurrent u.row) (sym same) (ended-IsCurrent u.row t.executions refl over);
      }
  | inr (inl held) ↦
      let s = Split-IsLedger t v held.3 in
      change-IsLedger t s u _ (open-last t s _ _ (sym p.counted) (held-open t s held.0)) refl refl
        refl (inr (refl, inl refl))
  | inr (inr over) ↦ absurd (ground (arith, live, over.0))
]
