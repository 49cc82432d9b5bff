-- ===== src/Leases/Places.antt =====
-- The row of a task, its lease and its dispatch row: the three places where a task can be.
use night_voyager.Planning.Enums.{RunState}
use night_voyager.Base.{
  ℕ, ◌+◌, ◌≤◌, ◌<◌, String, ◌≡◌, refl, ◌⊎◌, inl, inr, true, false, none, some, List, arith,
}
use night_voyager.Planning.Models.{Uuid}
use night_voyager.Tasks.Models.{AgentTaskState}
use night_voyager.Leases.Rows.{ExecutionRow, EventRow, TaskRow, Task, is_leased, is_closed}
use night_voyager.Leases.Calls.{
  lease_ms, left, begun, reschedule, renewed, terminal_state_named, requeued, ended_by,
  cancelled_at,
}
use night_voyager.Leases.Claim.{unpinned, given_up, leased_row, leased_by, reclaimed_by}
use night_voyager.Leases.Finalize.{target_state, finalized}
use night_voyager.Leases.Steps.{
  created, Effect, drops, unpins, postpones, exhausts, reclaims, leases, begins, renews, requeues,
  ends, stores, repeats, aborts,
}

-- In the queue: nobody holds it, and its dispatch row will be found.
abbrev pub IsWaiting : Task → Type 0
IsWaiting t =
    (t.row.state ≡ AgentTaskState.queued)
    × (t.row.lease_owner ≡ none)
    × (t.row.lease_expires_at ≡ none)
    × (t.row.attempt_count < 3)
    × ((due : ℕ) × (t.dispatch ≡ some due))

-- Leased or running: one owner, until a moment at which the dispatch row comes up again.
abbrev pub IsHeld : Task → Type 0
IsHeld t =
    (is_leased t.row.state ≡ true)
    × ((worker : String) × (t.row.lease_owner ≡ some worker))
    × ((expiry : ℕ) × (t.row.lease_expires_at ≡ some expiry) × (t.dispatch ≡ some expiry))
    × (0 < t.row.attempt_count)

-- Ended: no owner, and no dispatch row.
abbrev pub IsOver : Task → Type 0
IsOver t =
    (is_closed t.row.state ≡ true)
    × (t.row.lease_owner ≡ none)
    × (t.row.lease_expires_at ≡ none)
    × (t.dispatch ≡ none)

-- Every lease is an attempt, and there are three at most.
pub record IsPlaced (t : Task) : Type 0 where
  pub place : IsWaiting t ⊎ (IsHeld t ⊎ IsOver t)
  pub counted : t.row.lease_generation ≡ t.row.attempt_count
  pub bounded : t.row.attempt_count ≤ 3

pub created-IsPlaced : (pins : TaskRow) (now : ℕ) → IsPlaced (created pins now)
unfolding created
created-IsPlaced pins now = record {
  place = inl (refl, refl, refl, omega arith, (now, refl));
  counted = refl;
  bounded = omega arith;
}

pub terminal_state_named-closed : (code : String) → is_closed (terminal_state_named code) ≡ true
unfolding terminal_state_named is_closed
terminal_state_named-closed code = ground arith

pub target_state-closed : (state : RunState) → is_closed (target_state state) ≡ true
unfolding target_state is_closed
target_state-closed state = ground arith

pub is_leased-closed : (s : AgentTaskState) → is_leased s ≡ true → is_closed s ≡ false
unfolding is_leased is_closed
is_leased-closed s h = ground arith

-- The writes that end a task leave it over.
over-IsPlaced :
    (t u : Task)
    → IsPlaced t
    → is_closed u.row.state ≡ true
    → u.row.lease_owner ≡ none
    → u.row.lease_expires_at ≡ none
    → u.dispatch ≡ none
    → u.row.lease_generation ≡ t.row.lease_generation
    → u.row.attempt_count ≡ t.row.attempt_count
    → IsPlaced u
over-IsPlaced t u v closed owner expiry gone same count = record {
  place = inr (inr (closed, owner, expiry, gone));
  counted = omega (arith, v.counted);
  bounded = omega (arith, v.bounded);
}

-- Where the task is, once its state is known.
pub IsHeld-place : (t : Task) → IsPlaced t → is_leased t.row.state ≡ true → IsHeld t
unfolding is_leased
IsHeld-place t v h = elim v.place [
  | inl waiting ↦ absurd (ground (arith, waiting))
  | inr (inl held) ↦ held
  | inr (inr over) ↦ absurd (ground (arith, is_leased-closed t.row.state h, over.0))
]

pub IsWaiting-place : (t : Task) → IsPlaced t → t.row.state ≡ AgentTaskState.queued → IsWaiting t
unfolding is_leased is_closed
IsWaiting-place t v h = elim v.place [
  | inl waiting ↦ waiting
  | inr (inl held) ↦ absurd (ground (arith, held.0))
  | inr (inr over) ↦ absurd (ground (arith, over.0))
]

pub IsOver-place : (t : Task) → IsPlaced t → is_closed t.row.state ≡ true → IsOver t
unfolding is_closed
IsOver-place t v h = elim v.place [
  | inl waiting ↦ absurd (ground (arith, waiting.0))
  | inr (inl held) ↦ absurd (ground (arith, is_leased-closed t.row.state held.0))
  | inr (inr over) ↦ over
]

leased_by-IsPlaced :
    (t : Task) (worker : String) (id : Uuid) (now : ℕ) (es : List ExecutionRow) (vs : List EventRow)
    → IsPlaced t
    → (due : ℕ) × (t.dispatch ≡ some due)
    → t.row.attempt_count < 3
    → IsPlaced (leased_by worker id now es vs t).task
unfolding leased_by leased_row reschedule is_leased
leased_by-IsPlaced t worker id now es vs v (due, at) early = record {
  place = inr (inl (refl, (worker, refl), (now + lease_ms, refl, ground (arith, at)), omega arith));
  counted = omega (arith, v.counted);
  bounded = omega (arith, early);
}

-- Every effect keeps a task in one of the places.
pub Effect-IsPlaced : {t : Task} {now : ℕ} {u : Task} → Effect t now u → IsPlaced t → IsPlaced u
unfolding unpinned given_up reclaimed_by begun renewed requeued ended_by finalized cancelled_at left
    reschedule is_leased is_closed
Effect-IsPlaced {t} {u} (drops over) v =
    let (closed, owner, expiry, _) = IsOver-place t v over in
    over-IsPlaced t _ v closed owner expiry refl refl refl
Effect-IsPlaced {t} {u} (unpins live) v = over-IsPlaced t _ v refl refl refl refl refl refl
Effect-IsPlaced {t} {u} (postpones held) v =
    let (leased_state, owner, (expiry, at, _), some_attempt) = IsHeld-place t v held in
    record {
      place = inr (inl (leased_state, owner, (expiry, at, at), some_attempt));
      counted = v.counted;
      bounded = v.bounded;
    }
Effect-IsPlaced {t} {u} (exhausts now held past spent) v =
    over-IsPlaced t _ v refl refl refl refl refl refl
Effect-IsPlaced {t} {u} (reclaims worker id now held past early) v =
    let (_, _, (expiry, _, at), _) = IsHeld-place t v held in
    leased_by-IsPlaced t worker id now _ _ v (expiry, at) early
Effect-IsPlaced {t} {u} (leases worker id now waiting) v =
    let (_, _, _, early, due) = IsWaiting-place t v waiting in
    leased_by-IsPlaced t worker id now _ _ v due early
Effect-IsPlaced {t} {u} (begins worker generation input_sha256 now holder at) v =
    let (_, owner, lease, some_attempt) = IsHeld-place t v holder.leased in
    record {
      place = inr (inl (refl, owner, lease, some_attempt));
      counted = v.counted;
      bounded = v.bounded;
    }
Effect-IsPlaced {t} {u} (renews worker generation now holder) v =
    let (held, owner, (expiry, _, at), some_attempt) = IsHeld-place t v holder.leased in
    record {
      place = inr (inl (held, owner, (now + lease_ms, refl, ground (arith, at)), some_attempt));
      counted = v.counted;
      bounded = v.bounded;
    }
Effect-IsPlaced {t} {u} (requeues worker generation code fallback_used now holder early) v =
    let (_, _, (expiry, _, at), _) = IsHeld-place t v holder.leased in
    record {
      place = inl (refl, refl, refl, early, (now, ground (arith, at)));
      counted = v.counted;
      bounded = v.bounded;
    }
Effect-IsPlaced {t} {u} (ends worker generation code fallback_used now holder) v =
    over-IsPlaced t _ v (terminal_state_named-closed code) refl refl refl refl refl
Effect-IsPlaced {t} {u} (stores worker generation result now holder valid) v =
    over-IsPlaced t _ v (target_state-closed result.state) refl refl refl refl refl
Effect-IsPlaced {t} {u} repeats v = v
Effect-IsPlaced {t} {u} (aborts now live) v = over-IsPlaced t _ v refl refl refl refl refl refl
