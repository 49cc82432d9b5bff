-- ===== src/Leases/Steps.antt =====
-- The life of a task as the sequence of the calls that succeed on it, and what each may do to it.

use night_voyager.Base.{ℕ, ◌≤◌, ◌<◌, String, ◌≡◌, Bool, true, false, none, some, []}
use night_voyager.Base.Results.{ok}
use night_voyager.Planning.Models.{Uuid}
use night_voyager.Tasks.Models.{AgentTaskState}
use night_voyager.Leases.Rows.{
  TaskRow, Task, is_leased, is_closed, has_lapsed, is_pending, append_agent_task_event,
}
use night_voyager.Leases.Calls.{
  begun, start_agent_task, renewed, heartbeat_agent_task, requeued, ended_by, fail_agent_task,
  cancelled_at, cancel_task,
}
use night_voyager.Leases.Claim.{
  SkillTables, unpinned, given_up, leased_by, reclaimed_by, claim_task,
}
use night_voyager.Leases.Finalize.{
  PlanningTables, FinalResult, is_result_state, finalized, finalize_agent_task_result,
}

-- The rows that `create_agent_task` inserts: the task is queued, its dispatch row due at once.
unfoldable pub created : TaskRow → ℕ → Task
created pins now = record {
  row = record pins {
    row_version = 1;
    state = AgentTaskState.queued;
    attempt_count = 0;
    lease_owner = none;
    lease_generation = 0;
    lease_expires_at = none;
    result_planning_run_id = none;
    terminal_code = none;
  };
  executions = [];
  events = append_agent_task_event "queued" "preparing" "queued" 0 none [];
  dispatch = some now;
}

-- One call that raises nothing.
pub data Step (t : Task) : Task → Type 0 where
  claims :
      (tables : SkillTables) (worker : String) (id : Uuid) (now : ℕ)
      → has_lapsed t.dispatch now ≡ true
      → Step t (claim_task tables worker id now t).task
  starts :
      {u : Task} (worker : String) (generation : ℕ) (input_sha256 : String) (now : ℕ)
      → start_agent_task worker generation input_sha256 now t ≡ ok u
      → Step t u
  beats :
      {u : Task} (worker : String) (generation now : ℕ)
      → heartbeat_agent_task worker generation now t ≡ ok u
      → Step t u
  fails :
      {u : Task} (worker : String) (generation : ℕ) (code : String) (retryable fallback_used : Bool)
      (now : ℕ)
      → fail_agent_task worker generation code retryable fallback_used now t ≡ ok u
      → Step t u
  finalizes :
      {u : Task} (worker : String) (generation : ℕ) (result : FinalResult) (now : ℕ)
      (before after : PlanningTables)
      → finalize_agent_task_result worker generation result now before t ≡ ok (after, u)
      → Step t u
  cancels :
      {u : Task} (expected_version now : ℕ) → cancel_task expected_version now t ≡ ok u → Step t u

-- When the call is made.
abbrev pub moment : {t u : Task} → Step t u → ℕ
moment (claims tables worker id now due) = now
moment (starts worker generation input_sha256 now h) = now
moment (beats worker generation now h) = now
moment (fails worker generation code retryable fallback_used now h) = now
moment (finalizes worker generation result now before after h) = now
moment (cancels expected_version now h) = now

-- Any number of calls, from any workers, in any order.
pub data Steps (t : Task) : Task → Type 0 where
  stay : Steps t t
  later : {u v : Task} → Steps t u → Step u v → Steps t v

-- The lease is held by the worker, under the generation, and has not lapsed.
pub record IsHolder (t : Task) (worker : String) (generation now : ℕ) : Type 0 where
  pub leased : is_leased t.row.state ≡ true
  pub owner : t.row.lease_owner ≡ some worker
  pub current : t.row.lease_generation ≡ generation
  pub fresh : has_lapsed t.row.lease_expires_at now ≡ false

-- What a call does at its moment, with the guards that it passed.
pub data Effect (t : Task) : ℕ → Task → Type 0 where
  drops : {now : ℕ} → is_closed t.row.state ≡ true → Effect t now (record t { dispatch = none })
  unpins : {now : ℕ} → is_closed t.row.state ≡ false → Effect t now (unpinned t)
  postpones :
      {now : ℕ}
      → is_leased t.row.state ≡ true
      → Effect t now (record t { dispatch = t.row.lease_expires_at })
  exhausts :
      (now : ℕ)
      → is_leased t.row.state ≡ true
      → is_pending t.row.lease_expires_at now ≡ false
      → 3 ≤ t.row.attempt_count
      → Effect t now (given_up now t)
  reclaims :
      (worker : String) (id : Uuid) (now : ℕ)
      → is_leased t.row.state ≡ true
      → is_pending t.row.lease_expires_at now ≡ false
      → t.row.attempt_count < 3
      → Effect t now (reclaimed_by worker id now t).task
  leases :
      (worker : String) (id : Uuid) (now : ℕ)
      → t.row.state ≡ AgentTaskState.queued
      → Effect t now (leased_by worker id now t.executions t.events t).task
  begins :
      (worker : String) (generation : ℕ) (input_sha256 : String) (now : ℕ)
      → IsHolder t worker generation now
      → t.row.state ≡ AgentTaskState.leased
      → Effect t now (begun generation input_sha256 now t)
  renews :
      (worker : String) (generation now : ℕ)
      → IsHolder t worker generation now
      → Effect t now (renewed now t)
  requeues :
      (worker : String) (generation : ℕ) (code : String) (fallback_used : Bool) (now : ℕ)
      → IsHolder t worker generation now
      → t.row.attempt_count < 3
      → Effect t now (requeued generation code fallback_used now t)
  ends :
      (worker : String) (generation : ℕ) (code : String) (fallback_used : Bool) (now : ℕ)
      → IsHolder t worker generation now
      → Effect t now (ended_by generation code fallback_used now t)
  stores :
      (worker : String) (generation : ℕ) (result : FinalResult) (now : ℕ)
      → IsHolder t worker generation now
      → is_result_state result.state ≡ true
      → Effect t now (finalized generation result now t)
  repeats : {now : ℕ} → Effect t now t
  aborts : (now : ℕ) → is_closed t.row.state ≡ false → Effect t now (cancelled_at now t)
