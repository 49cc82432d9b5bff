-- ===== src/Leases/Abandoned.antt =====
-- A task whose workers die one after the other is ended all the same.
use night_voyager.Leases.Steps.{created, Steps}
use night_voyager.Leases.Invariant.{created-Steps-IsSound}
use night_voyager.Leases.Effects.{is_closed-states, claim_task-Effect}
use mathlib.Core.Path.{subst}
use night_voyager.Base.{
  leb, if◌then◌else◌, Bool-cases, length, ℕ, ◌+◌, ◌≤◌, String, ◌≡◌, refl, sym, ap, ◌∙◌, ◌⊎◌, inl,
  inr, true, false, some, List, [], ◌∷◌, arith,
}
use night_voyager.Planning.Models.{Uuid}
use night_voyager.Leases.Rows.{
  ExecutionRow, EventRow, TaskRow, Task, is_leased, is_closed, has_lapsed, is_pending,
}
use night_voyager.Leases.Calls.{lease_ms, left, reschedule}
use night_voyager.Leases.Claim.{
  SkillTables, is_pinned, unpinned, given_up, leased_row, leased_by, reclaimed_by, claim_leased,
  claim_task,
}
use night_voyager.Leases.Places.{IsPlaced, IsHeld-place, IsOver-place, Effect-IsPlaced}

-- A worker polls: the claim finds the task if its dispatch row is due, and then the worker dies.
unfoldable pub poll : SkillTables → String → Uuid → ℕ → Task → Task
poll tables worker id now t =
    if has_lapsed t.dispatch now then (claim_task tables worker id now t).task else t

abbrev pub polls : SkillTables → String → Uuid → List ℕ → Task → Task
polls tables worker id [] t = t
polls tables worker id (now ∷ rest) t = polls tables worker id rest (poll tables worker id now t)

-- The polls come no faster than leases lapse, the first of them at `now` or later.
abbrev pub IsSpaced : ℕ → List ℕ → Type 0
IsSpaced now [] = Unit
IsSpaced now (m ∷ ms) = (now ≤ m) × IsSpaced (m + lease_ms) ms

-- The dispatch row is due from `now` on.
abbrev pub IsDueBy : Task → ℕ → Type 0
IsDueBy t now = (due : ℕ) × (t.dispatch ≡ some due) × (due ≤ now)

-- The task is over, or an attempt is spent and it is due a lease later.
abbrev HasProgressed : Task → ℕ → Task → Type 0
HasProgressed t now u =
    (is_closed u.row.state ≡ true)
    ⊎ ((u.row.attempt_count ≡ t.row.attempt_count + 1)
        × (is_closed u.row.state ≡ false)
        × IsDueBy u (now + lease_ms))

module _ (tables : SkillTables) (worker : String) (id : Uuid) (now : ℕ) (t : Task) where
  leased_by-progress :
      (es : List ExecutionRow) (vs : List EventRow)
      → IsDueBy t now
      → HasProgressed t now (leased_by worker id now es vs t).task
  unfolding leased_by leased_row reschedule is_closed
  leased_by-progress es vs (due, at, _) =
      inr (refl, refl, (now + lease_ms, ground (arith, at), omega arith))

  -- The lease of a held task that is due has lapsed.
  due-past :
      IsPlaced t
      → is_leased t.row.state ≡ true
      → IsDueBy t now
      → is_pending t.row.lease_expires_at now ≡ false
  unfolding is_pending
  due-past p held (due, at, early) =
      let (_, _, (expiry, lease, dispatched), _) = IsHeld-place t p held in
      ground (arith, at, early, lease, dispatched)

  claim_leased-progress :
      IsPlaced t
      → is_leased t.row.state ≡ true
      → IsDueBy t now
      → HasProgressed t now (claim_leased worker id now t).task
  unfolding claim_leased reclaimed_by given_up left is_closed
  claim_leased-progress p held due =
      rw (due-past p held due) (elim (Bool-cases (leb 3 t.row.attempt_count)) [
        | inl spent ↦ rw spent (inl refl)
        | inr again ↦ rw again (leased_by-progress _ _ due)
      ])

  -- After a claim of a due task.
  claim_task-progress :
      IsPlaced t
      → is_closed t.row.state ≡ false
      → IsDueBy t now
      → HasProgressed t now (claim_task tables worker id now t).task
  unfolding claim_task unpinned left is_closed
  claim_task-progress p live due = rw live (elim (Bool-cases (is_pinned tables t.row.skill_pin)) [
    | inl pinned ↦ rw pinned (elim (is_closed-states t.row.state live) [
      | inl (waiting, free) ↦ rw free (leased_by-progress _ _ due)
      | inr held ↦ rw held (claim_leased-progress p held due)
    ])
    | inr loose ↦ rw loose (inl refl)
  ])

  poll-due : IsDueBy t now → poll tables worker id now t ≡ (claim_task tables worker id now t).task
  unfolding poll has_lapsed
  poll-due (due, at, early) = ground (arith, at, early)

  poll-IsPlaced : IsPlaced t → IsPlaced (poll tables worker id now t)
  unfolding poll
  poll-IsPlaced p = elim (Bool-cases (has_lapsed t.dispatch now)) [
    | inl due ↦ rw due (Effect-IsPlaced (claim_task-Effect tables worker id now t) p)
    | inr early ↦ rw early p
  ]

  -- An ended task is left alone.
  poll-over : IsPlaced t → is_closed t.row.state ≡ true → poll tables worker id now t ≡ t
  unfolding poll has_lapsed
  poll-over p over = let (_, _, _, gone) = IsOver-place t p over in ground (arith, gone)

later_due : (t : Task) (now m : ℕ) → now ≤ m → IsDueBy t now → IsDueBy t m
later_due t now m le (due, at, early) = (due, at, omega (arith, le, early))

polls-over :
    (tables : SkillTables) (worker : String) (id : Uuid) (moments : List ℕ) (t : Task)
    → IsPlaced t
    → is_closed t.row.state ≡ true
    → polls tables worker id moments t ≡ t
polls-over tables worker id [] t p over = refl
polls-over tables worker id (m ∷ ms) t p over =
    ap (polls tables worker id ms) (poll-over tables worker id m t p over)
    ∙ polls-over tables worker id ms t p over

-- A live task that is due is over after as many polls as it has attempts left, and one more, if
-- each poll finds the lease of the one before lapsed, and no worker calls again.
pub polls-closed :
    (tables : SkillTables) (worker : String) (id : Uuid) (moments : List ℕ) (now : ℕ) (t : Task)
    → IsPlaced t
    → is_closed t.row.state ≡ false
    → IsDueBy t now
    → IsSpaced now moments
    → 4 ≤ t.row.attempt_count + length moments
    → is_closed (polls tables worker id moments t).row.state ≡ true
polls-closed tables worker id [] now t p live due spaced enough =
    absurd (omega (arith, p.bounded, enough))
polls-closed tables worker id (m ∷ ms) now t p live due (after, spaced) enough =
    let here = later_due t now m after due in
    let placed = poll-IsPlaced tables worker id m t p in
    let same = poll-due tables worker id m t here in
    elim (claim_task-progress tables worker id m t p live here) [
      | inl over ↦
          let closed = ap (λ u. is_closed u.row.state) same ∙ over in
          ap (λ u. is_closed u.row.state) (polls-over tables worker id ms _ placed closed) ∙ closed
      | inr (spent, alive, next) ↦
          polls-closed tables worker id ms (m + lease_ms) _ placed
            (ap (λ u. is_closed u.row.state) same ∙ alive)
            (subst (λ u. IsDueBy u (m + lease_ms)) (sym same) next) spaced
            (omega (arith, enough, spent, ap (λ u. u.row.attempt_count) same))
    ]

-- A live task has a dispatch row.
live-due : (t : Task) → IsPlaced t → is_closed t.row.state ≡ false → (due : ℕ) × IsDueBy t due
live-due t p live = elim p.place [
  | inl (_, _, _, _, (due, at)) ↦ (due, (due, at, omega arith))
  | inr (inl (_, _, (expiry, _, at), _)) ↦ (expiry, (expiry, at, omega arith))
  | inr (inr over) ↦ absurd (ground (arith, live, over.0))
]

-- No created task is lost: whatever calls succeeded on it, if it is not over, then from some
-- moment on four polls that find each other's leases lapsed end it, whoever holds it, and though
-- every worker dies.
pub created-polls-closed :
    (pins : TaskRow) (start : ℕ) {t : Task}
    → Steps (created pins start) t
    → is_closed t.row.state ≡ false
    → (now : ℕ) × ((tables : SkillTables) (worker : String) (id : Uuid) (moments : List ℕ)
        → IsSpaced now moments
        → length moments ≡ 4
        → is_closed (polls tables worker id moments t).row.state ≡ true)
created-polls-closed pins start {t} steps live =
    let p = (created-Steps-IsSound pins start steps).placed in
    let (now, due) = live-due t p live in
    (
      now,
      λ tables worker id moments spaced four.
          polls-closed tables worker id moments now t p live due spaced (omega (arith, four)),
    )
