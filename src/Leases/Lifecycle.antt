-- ===== src/Leases/Lifecycle.antt =====
-- The abstract life of a task, which forgets owners, generations and rows: it waits, is held until
-- a moment, or is over, with a number of attempts left.
use night_voyager.Base.{
  ℕ, suc, ◌+◌, ◌-◌, ◌≤◌, ◌<◌, String, ◌≡◌, refl, ◌⊎◌, inl, inr, true, false, Option, none, some,
  arith,
}
use night_voyager.Tasks.Models.{AgentTaskState}
use night_voyager.Leases.Rows.{Task, is_leased, is_closed, has_lapsed, is_pending}
use night_voyager.Leases.Calls.{
  lease_ms, left, begun, renewed, terminal_state_named, requeued, ended_by, cancelled_at,
}
use night_voyager.Leases.Claim.{unpinned, given_up, leased_row, leased_by, reclaimed_by}
use night_voyager.Leases.Finalize.{target_state, finalized}
use night_voyager.Leases.Steps.{
  Step, moment, IsHolder, Effect, drops, unpins, postpones, exhausts, reclaims, leases, begins,
  renews, requeues, ends, stores, repeats, aborts,
}
use night_voyager.Leases.Effects.{is_closed-states, Step-Effect}
use night_voyager.Leases.Places.{
  IsPlaced, terminal_state_named-closed, target_state-closed, IsHeld-place, IsWaiting-place,
}
use night_voyager.Leases.Invariant.{IsSound}

-- The attempts left, the moment at which the lease ends, and the state that ended it.
pub data Life : Type 0 where
  ready : ℕ → Life
  taken : ℕ → ℕ → Life
  finished : AgentTaskState → Life

-- What may happen to a task at a moment.
pub data Move (now : ℕ) : Life → Life → Type 0 where
  wait : {l : Life} → Move now l l
  take : {n : ℕ} → Move now (ready (suc n)) (taken n (now + lease_ms))
  retake : {n until : ℕ} → until ≤ now → Move now (taken (suc n) until) (taken n (now + lease_ms))
  extend : {n until : ℕ} → now < until → Move now (taken n until) (taken n (now + lease_ms))
  give_back : {n until : ℕ} → now < until → Move now (taken (suc n) until) (ready (suc n))
  conclude :
      {n until : ℕ} {s : AgentTaskState}
      → now < until
      → is_closed s ≡ true
      → Move now (taken n until) (finished s)
  run_out : {until : ℕ} → until ≤ now → Move now (taken 0 until) (finished AgentTaskState.failed)
  withdraw :
      {n : ℕ} {s : AgentTaskState}
      → (s ≡ AgentTaskState.failed) ⊎ (s ≡ AgentTaskState.cancelled)
      → Move now (ready n) (finished s)
  revoke :
      {n until : ℕ} {s : AgentTaskState}
      → (s ≡ AgentTaskState.failed) ⊎ (s ≡ AgentTaskState.cancelled)
      → Move now (taken n until) (finished s)

-- The end of a lease; a task that is not leased has none.
abbrev pub until_of : Option ℕ → ℕ
until_of none = 0
until_of (some until) = until

unfoldable pub life : AgentTaskState → ℕ → ℕ → Life
life AgentTaskState.queued n until = ready n
life AgentTaskState.leased n until = taken n until
life AgentTaskState.running n until = taken n until
life s n until = finished s

-- The view of a task, with the attempts that its three leave and the end of its lease.
abbrev pub view : Task → Life
view t = life t.row.state (3 - t.row.attempt_count) (until_of t.row.lease_expires_at)

life-leased : (s : AgentTaskState) (n e : ℕ) → is_leased s ≡ true → life s n e ≡ taken n e
unfolding life is_leased
life-leased s n e h = ground arith

life-closed : (s : AgentTaskState) (n e : ℕ) → is_closed s ≡ true → life s n e ≡ finished s
unfolding life is_closed
life-closed s n e h = ground arith

-- The attempts left are one more before a claim than after it.
one_less : (n : ℕ) → n < 3 → 3 - n ≡ suc (3 - (n + 1))
one_less n h = omega (arith, h)

-- A lease that is not pending ended, and one that has not lapsed goes on.
is_pending-until_of : (e : Option ℕ) (now : ℕ) → is_pending e now ≡ false → until_of e ≤ now
unfolding is_pending
is_pending-until_of none now h = omega arith
is_pending-until_of (some until) now h = ground arith

has_lapsed-until_of :
    (e : Option ℕ) (x now : ℕ) → e ≡ some x → has_lapsed e now ≡ false → now < until_of e
unfolding has_lapsed
has_lapsed-until_of e x now at h = ground arith

IsHolder-until_of :
    {t : Task} {worker : String} {generation now : ℕ}
    → IsPlaced t
    → IsHolder t worker generation now
    → now < until_of t.row.lease_expires_at
IsHolder-until_of {t} {now} p holder =
    let (_, _, (expiry, at, _), _) = IsHeld-place t p holder.leased in
    has_lapsed-until_of _ expiry now at holder.fresh

-- A held task is ended by its holder.
held_ends :
    {now : ℕ} (s u : AgentTaskState) (m n e f : ℕ)
    → is_leased s ≡ true
    → now < e
    → is_closed u ≡ true
    → Move now (life s m e) (life u n f)
held_ends s u m n e f held fresh closed =
    rw (life-leased s m e held, life-closed u n f closed) (conclude fresh closed)

live_ends :
    {now : ℕ} (s u : AgentTaskState) (m n e f : ℕ)
    → is_closed s ≡ false
    → is_closed u ≡ true
    → (u ≡ AgentTaskState.failed) ⊎ (u ≡ AgentTaskState.cancelled)
    → Move now (life s m e) (life u n f)
unfolding life
live_ends s u m n e f live closed why = elim (is_closed-states s live) [
  | inl (queue, _) ↦ rw (queue, life-closed u n f closed) (withdraw why)
  | inr held ↦ rw (life-leased s m e held, life-closed u n f closed) (revoke why)
]

held-run_out :
    {now : ℕ} (s : AgentTaskState) (count n e f : ℕ)
    → is_leased s ≡ true
    → e ≤ now
    → 3 ≤ count
    → Move now (life s (3 - count) e) (life AgentTaskState.failed n f)
unfolding life
held-run_out s count n e f held past spent =
    let none_left : 3 - count ≡ 0 = omega (arith, spent) in
    rw (life-leased s (3 - count) e held, none_left) (run_out past)

held-retake :
    {now : ℕ} (s : AgentTaskState) (n e : ℕ)
    → is_leased s ≡ true
    → e ≤ now
    → n < 3
    → Move now (life s (3 - n) e) (life AgentTaskState.leased (3 - (n + 1)) (now + lease_ms))
unfolding life
held-retake s n e held past early =
    rw (life-leased s (3 - n) e held, one_less n early) (retake past)

held-extend :
    {now : ℕ} (s : AgentTaskState) (n e : ℕ)
    → is_leased s ≡ true
    → now < e
    → Move now (life s n e) (life s n (now + lease_ms))
held-extend {now} s n e held fresh =
    rw (life-leased s n e held, life-leased s n (now + lease_ms) held) (extend fresh)

held-give_back :
    {now : ℕ} (s : AgentTaskState) (n e f : ℕ)
    → is_leased s ≡ true
    → now < e
    → n < 3
    → Move now (life s (3 - n) e) (life AgentTaskState.queued (3 - n) f)
unfolding life
held-give_back s n e f held fresh early =
    rw (life-leased s (3 - n) e held, one_less n early) (give_back fresh)

Effect-Move :
    {t : Task} {now : ℕ} {u : Task} → Effect t now u → IsPlaced t → Move now (view t) (view u)
unfolding unpinned given_up reclaimed_by leased_by leased_row begun renewed requeued ended_by
    finalized cancelled_at left life is_closed is_leased
Effect-Move {t} {u} (drops over) p = wait
Effect-Move {t} {u} (unpins live) p =
    live_ends t.row.state AgentTaskState.failed _ 0 _ 0 live refl (inl refl)
Effect-Move {t} {u} (postpones held) p = wait
Effect-Move {t} {u} (exhausts now held past spent) p =
    held-run_out t.row.state t.row.attempt_count 0 _ 0 held (is_pending-until_of _ now past) spent
Effect-Move {t} {u} (reclaims worker id now held past early) p =
    held-retake t.row.state t.row.attempt_count _ held (is_pending-until_of _ now past) early
Effect-Move {t} {u} (leases worker id now waiting) p =
    rw (waiting, one_less t.row.attempt_count (IsWaiting-place t p waiting).3) take
Effect-Move {t} {u} (begins worker generation input_sha256 now holder at) p = rw at wait
Effect-Move {t} {u} (renews worker generation now holder) p =
    held-extend t.row.state _ _ holder.leased (IsHolder-until_of p holder)
Effect-Move {t} {u} (requeues worker generation code fallback_used now holder early) p =
    held-give_back t.row.state t.row.attempt_count _ 0 holder.leased (IsHolder-until_of p holder)
      early
Effect-Move {t} {u} (ends worker generation code fallback_used now holder) p =
    held_ends t.row.state (terminal_state_named code) _ _ _ _ holder.leased
      (IsHolder-until_of p holder) (terminal_state_named-closed code)
Effect-Move {t} {u} (stores worker generation result now holder valid) p =
    held_ends t.row.state (target_state result.state) _ _ _ _ holder.leased
      (IsHolder-until_of p holder) (target_state-closed result.state)
Effect-Move {t} {u} repeats p = wait
Effect-Move {t} {u} (aborts now live) p =
    live_ends t.row.state AgentTaskState.cancelled _ 0 _ 0 live refl (inr refl)

-- Every call that succeeds on a sound task is, at the moment of the call, a move of the abstract
-- life or none: it takes a waiting task, or one whose lease has ended by then, which costs an
-- attempt and starts a new lease; while the lease runs it extends it, gives the task back if an
-- attempt is left, or ends it; it fails a task whose lease ended with no attempt left; it fails or
-- cancels a task that is not over; or it leaves the task as it is. An ended task stays as it ended.
pub Step-Move : {t u : Task} → IsSound t → (step : Step t u) → Move (moment step) (view t) (view u)
Step-Move v step = Effect-Move (Step-Effect step) v.placed
