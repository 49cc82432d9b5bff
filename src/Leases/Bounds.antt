-- ===== src/Leases/Bounds.antt =====
-- The constraints of the tables in migrations/versions/0004_agent_tasks_executions_events.py.
use night_voyager.Leases.Places.{IsPlaced}
use night_voyager.Leases.Invariant.{IsSound, created-Steps-IsSound}
use night_voyager.Leases.Steps.{created, Steps}
use night_voyager.Tasks.Models.{
  agent_task_state_eq, adapter_failure_code_eq, planning_operation_eq, adapter_id_eq,
  adapter_version_eq,
}
use night_voyager.Leases.Journal.{IsDense}
use night_voyager.Base.{
  is_none, nat_eq, string_eq, option_eq, length, All, contains, list_eq, ℕ, ◌+◌, ◌-◌, ◌≤◌, ◌<◌, ◌≡◌,
  refl, inl, inr, false, not, ◌&&◌, List, [], ◌∷◌, map, arith,
}
use night_voyager.Base.ListLaws.{Unique}
use night_voyager.Leases.Rows.{ExecutionRow, EventRow, TaskRow, Task, is_leased, is_closed}
use night_voyager.Leases.Ledger.{IsNumbered}

-- The `CHECK` and `UNIQUE` constraints on the rows of one task.
pub record SatisfiesConstraints (t : Task) : Type 0 where
  pub attempt_count : t.row.attempt_count ≤ 3
  pub lease :
      is_leased t.row.state
      ≡ (not (is_none t.row.lease_owner) && not (is_none t.row.lease_expires_at))
  pub executions : length t.executions ≤ 3
  pub numbers :
      All (λ e. (1 ≤ e.attempt_no) × (e.attempt_no ≤ 3) × (0 < e.lease_generation)) t.executions
  pub attempt_key : Unique (map (λ e. e.attempt_no) t.executions)
  pub generation_key : Unique (map (λ e. e.lease_generation) t.executions)
  pub sequences : All (λ e. 0 < e.event_sequence) t.events
  pub event_key : Unique (map (λ e. e.event_sequence) t.events)

-- `n`, ..., 2, 1
abbrev IsCountdown : ℕ → List ℕ → Type 0
IsCountdown n [] = n ≡ 0
IsCountdown n (x ∷ xs) = (x ≡ n) × (0 < n) × IsCountdown (n - 1) xs

countdown-contains : (n m : ℕ) (xs : List ℕ) → IsCountdown n xs → n < m → contains m xs ≡ false
countdown-contains n m [] count less = refl
countdown-contains n m (x ∷ xs) (at, positive, rest) less =
    ground (arith, at, countdown-contains (n - 1) m xs rest (omega (arith, less)))

countdown-Unique : (n : ℕ) (xs : List ℕ) → IsCountdown n xs → Unique xs
countdown-Unique n [] count = tt
countdown-Unique n (x ∷ xs) (at, positive, rest) = (
  countdown-contains (n - 1) x xs rest (omega (arith, at, positive)),
  countdown-Unique (n - 1) xs rest,
)

-- `k + 1`, `k + 2`, ...
abbrev IsCountup : ℕ → List ℕ → Type 0
IsCountup k [] = Unit
IsCountup k (x ∷ xs) = (x ≡ k + 1) × IsCountup (k + 1) xs

countup-contains : (k m : ℕ) (xs : List ℕ) → IsCountup k xs → m ≤ k → contains m xs ≡ false
countup-contains k m [] count le = refl
countup-contains k m (x ∷ xs) (at, rest) le =
    ground (arith, at, countup-contains (k + 1) m xs rest (omega (arith, le)))

countup-Unique : (k : ℕ) (xs : List ℕ) → IsCountup k xs → Unique xs
countup-Unique k [] count = tt
countup-Unique k (x ∷ xs) (at, rest) =
    (countup-contains (k + 1) x xs rest (omega (arith, at)), countup-Unique (k + 1) xs rest)

numbered-attempts :
    (n : ℕ) (es : List ExecutionRow) → IsNumbered n es → IsCountdown n (map (λ e. e.attempt_no) es)
numbered-attempts n [] numbered = numbered
numbered-attempts n (e ∷ es) (attempt, _, positive, rest) =
    (attempt, positive, numbered-attempts (n - 1) es rest)

numbered-generations :
    (n : ℕ) (es : List ExecutionRow)
    → IsNumbered n es
    → IsCountdown n (map (λ e. e.lease_generation) es)
numbered-generations n [] numbered = numbered
numbered-generations n (e ∷ es) (_, generation, positive, rest) =
    (generation, positive, numbered-generations (n - 1) es rest)

numbered-bounds :
    (n : ℕ) (es : List ExecutionRow)
    → IsNumbered n es
    → n ≤ 3
    → All (λ e. (1 ≤ e.attempt_no) × (e.attempt_no ≤ 3) × (0 < e.lease_generation)) es
numbered-bounds n [] numbered le = tt
numbered-bounds n (e ∷ es) (attempt, generation, positive, rest) le = (
  (
    omega (arith, attempt, positive),
    omega (arith, attempt, le),
    omega (arith, generation, positive),
  ),
  numbered-bounds (n - 1) es rest (omega (arith, le)),
)

numbered-length : (n : ℕ) (es : List ExecutionRow) → IsNumbered n es → length es ≡ n
numbered-length n [] numbered = omega (arith, numbered)
numbered-length n (e ∷ es) (_, _, positive, rest) =
    omega (arith, positive, numbered-length (n - 1) es rest)

dense-IsCountup :
    (k : ℕ) (es : List EventRow) → IsDense k es → IsCountup k (map (λ e. e.event_sequence) es)
dense-IsCountup k [] dense = tt
dense-IsCountup k (e ∷ es) (at, rest) = (at, dense-IsCountup (k + 1) es rest)

dense-positive : (k : ℕ) (es : List EventRow) → IsDense k es → All (λ e. 0 < e.event_sequence) es
dense-positive k [] dense = tt
dense-positive k (e ∷ es) (at, rest) = (omega (arith, at), dense-positive (k + 1) es rest)

placed-lease :
    (t : Task)
    → IsPlaced t
    → is_leased t.row.state
      ≡ (not (is_none t.row.lease_owner) && not (is_none t.row.lease_expires_at))
unfolding is_leased is_closed
placed-lease t p = elim p.place [
  | inl waiting ↦ ground (arith, waiting)
  | inr (inl (held, (worker, owner), (expiry, lease, _), _)) ↦ ground (arith, held, owner, lease)
  | inr (inr (over, owner, lease, _)) ↦ ground (arith, over, owner, lease)
]

IsSound-SatisfiesConstraints : (t : Task) → IsSound t → SatisfiesConstraints t
IsSound-SatisfiesConstraints t v =
    let numbered = v.ledger.numbered in
    record {
      attempt_count = v.placed.bounded;
      lease = placed-lease t v.placed;
      executions = omega (arith, v.placed.bounded, numbered-length _ t.executions numbered);
      numbers = numbered-bounds _ t.executions numbered v.placed.bounded;
      attempt_key = countdown-Unique _ _ (numbered-attempts _ t.executions numbered);
      generation_key = countdown-Unique _ _ (numbered-generations _ t.executions numbered);
      sequences = dense-positive 0 t.events v.dense;
      event_key = countup-Unique 0 _ (dense-IsCountup 0 t.events v.dense);
    }

-- The rows of a created task satisfy the constraints of their tables after any calls:
-- at most three attempts, an owner and an expiry exactly while it is leased or
-- running, at most three executions, numbered from 1 to 3, with positive generations, no attempt,
-- generation or event number twice.
pub created-SatisfiesConstraints :
    (pins : TaskRow) (now : ℕ) {t : Task} → Steps (created pins now) t → SatisfiesConstraints t
created-SatisfiesConstraints pins now {t} steps =
    IsSound-SatisfiesConstraints t (created-Steps-IsSound pins now steps)
