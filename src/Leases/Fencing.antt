-- ===== src/Leases/Fencing.antt =====
-- A worker whose lease was given to another can no longer touch the task.
use night_voyager.Base.Equality.{◌!=◌, nat_eq, string_eq, option_eq}
use night_voyager.Base.{
  if◌then◌else◌, Bool-cases, list_eq, ℕ, ◌+◌, ◌≤◌, ◌<◌, String, ◌≡◌, refl, inl, inr, Bool, true,
  false, some, arith,
}
use night_voyager.Base.Results.{Result, err}
use night_voyager.Planning.Models.{Uuid}
use night_voyager.Tasks.Models.{
  AgentTaskState, agent_task_state_eq, adapter_failure_code_eq, planning_operation_eq,
  adapter_id_eq, adapter_version_eq,
}
use night_voyager.Leases.Rows.{TaskRow, Task, is_leased}
use night_voyager.Leases.Calls.{
  has_lost, left, begun, is_unstarted, start_agent_task, renewed, holds_lease, heartbeat_agent_task,
  requeued, ended_by, fail_agent_task, cancelled_at,
}
use night_voyager.Leases.Claim.{
  SkillTables, unpinned, given_up, leased_row, leased_by, reclaimed_by, claim_leased, claim_task,
}
use night_voyager.Leases.Finalize.{
  PlanningTables, FinalResult, finalized, is_replay, replayed, finalize_agent_task_result,
}
use night_voyager.Leases.Steps.{
  Steps, stay, later, Effect, drops, unpins, postpones, exhausts, reclaims, leases, begins, renews,
  requeues, ends, stores, repeats, aborts,
}
use night_voyager.Leases.Effects.{has_lost-false, Step-Effect}

abbrev pub IsRefused {ℓ} : {T : Type ℓ} → Result T → Type ℓ
IsRefused r = (code : String) × (r ≡ err code)

-- No call of a worker is accepted under the generation.
pub record IsFenced (t : Task) (generation : ℕ) : Type 0 where
  pub start :
      (worker input_sha256 : String) (now : ℕ)
      → IsRefused (start_agent_task worker generation input_sha256 now t)
  pub heartbeat :
      (worker : String) (now : ℕ) → IsRefused (heartbeat_agent_task worker generation now t)
  pub fail :
      (worker code : String) (retryable fallback_used : Bool) (now : ℕ)
      → IsRefused (fail_agent_task worker generation code retryable fallback_used now t)
  pub finalize :
      (worker : String) (result : FinalResult) (now : ℕ) (tables : PlanningTables)
      → IsRefused (finalize_agent_task_result worker generation result now tables t)

IsRefused-if {ℓ} :
    {T : Type ℓ} (test : Bool) (one other : Result T)
    → IsRefused one
    → IsRefused other
    → IsRefused (if test then one else other)
IsRefused-if true one other first second = first
IsRefused-if false one other first second = second

-- The lost generation is seen by the guard of every call.
has_lost-generation :
    (entered : AgentTaskState → Bool) (row : TaskRow) (worker : String) (generation now : ℕ)
    → generation < row.lease_generation
    → has_lost entered row worker generation now ≡ true
unfolding has_lost
has_lost-generation entered row worker generation now less =
    elim (Bool-cases (has_lost entered row worker generation now)) [
      | inl lost ↦ lost
      | inr kept ↦
          let (_, _, current, _) = has_lost-false entered row worker generation now kept in
          absurd (omega (arith, current))
    ]

holds_lease-generation :
    (row : TaskRow) (worker : String) (generation now : ℕ)
    → generation < row.lease_generation
    → holds_lease row worker generation now ≡ false
unfolding holds_lease
holds_lease-generation row worker generation now less = ground arith

module _ (t : Task) (generation : ℕ) (less : generation < t.row.lease_generation) where
  newer_generation : (t.row.lease_generation != generation) ≡ true
  newer_generation = ground (arith, less)

  lost-IsRefused {ℓ} :
      {T : Type ℓ} (entered : AgentTaskState → Bool) (worker : String) (now : ℕ) (r : Result T)
      → IsRefused (if has_lost entered t.row worker generation now then err "NV010" else r)
  lost-IsRefused entered worker now r =
      rw (has_lost-generation entered t.row worker generation now less) ("NV010", refl)

  replay-IsRefused :
      (result : FinalResult) (tables : PlanningTables)
      → IsRefused (replayed generation result tables t)
  unfolding replayed
  replay-IsRefused result tables = rw newer_generation ("NV010", refl)

  older-IsFenced : IsFenced t generation
  unfolding start_agent_task heartbeat_agent_task fail_agent_task finalize_agent_task_result
  older-IsFenced = record {
    start = λ worker input_sha256 now.
        IsRefused-if _ _ _ ("NV006", refl) (lost-IsRefused is_unstarted worker now _);
    heartbeat =
        λ worker now. rw (holds_lease-generation t.row worker generation now less) ("NV010", refl);
    fail = λ worker code retryable fallback_used now.
        IsRefused-if _ _ _ ("NV006", refl) (lost-IsRefused is_leased worker now _);
    finalize = λ worker result now tables.
        IsRefused-if (is_replay result t.row) (replayed generation result tables t) _
          (replay-IsRefused result tables) (lost-IsRefused is_leased worker now _);
  }

-- No effect lowers the generation.
Effect-generation :
    {t : Task} {now : ℕ} {u : Task}
    → Effect t now u
    → t.row.lease_generation ≤ u.row.lease_generation
unfolding unpinned given_up reclaimed_by leased_by leased_row begun renewed requeued ended_by
    finalized cancelled_at left
Effect-generation (drops _) = omega arith
Effect-generation (unpins _) = omega arith
Effect-generation (postpones _) = omega arith
Effect-generation (exhausts _ _ _ _) = omega arith
Effect-generation (reclaims _ _ _ _ _ _) = omega arith
Effect-generation (leases _ _ _ _) = omega arith
Effect-generation (begins _ _ _ _ _ _) = omega arith
Effect-generation (renews _ _ _ _) = omega arith
Effect-generation (requeues _ _ _ _ _ _ _) = omega arith
Effect-generation (ends _ _ _ _ _ _) = omega arith
Effect-generation (stores _ _ _ _ _ _) = omega arith
Effect-generation repeats = omega arith
Effect-generation (aborts _ _) = omega arith

Steps-generation : {t u : Task} → Steps t u → t.row.lease_generation ≤ u.row.lease_generation
Steps-generation stay = omega arith
Steps-generation (later steps step) =
    omega (arith, Steps-generation steps, Effect-generation (Step-Effect step))

-- The generation that a claim returns is new, and the task's from then on.
claim_task-generation :
    (tables : SkillTables) (worker : String) (id : Uuid) (now : ℕ) (t : Task) {generation : ℕ}
    → (claim_task tables worker id now t).generation ≡ some generation
    → (generation ≡ t.row.lease_generation + 1)
      × ((claim_task tables worker id now t).task.row.lease_generation ≡ generation)
unfolding claim_task claim_leased reclaimed_by leased_by leased_row
claim_task-generation tables worker id now t h = ground arith

-- Once the lease of a claim was given away by another claim, every call under the generation of
-- the first is refused, whatever succeeds on the task before, between and after.
pub claim_task-IsFenced :
    (tables : SkillTables) (one other : String) (i j : Uuid) (m n : ℕ) (t u v : Task)
    {first second : ℕ}
    → (claim_task tables one i m t).generation ≡ some first
    → Steps (claim_task tables one i m t).task u
    → (claim_task tables other j n u).generation ≡ some second
    → Steps (claim_task tables other j n u).task v
    → IsFenced v first
claim_task-IsFenced tables one other i j m n t u v a between b after =
    let (_, at) = claim_task-generation tables one i m t a in
    let (next, newer) = claim_task-generation tables other j n u b in
    older-IsFenced v _
      (omega (arith, at, next, newer, Steps-generation between, Steps-generation after))
