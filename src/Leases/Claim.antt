-- ===== src/Leases/Claim.antt =====
-- `claim_agent_task`, as migrations/versions/0008_versioned_skills.py leaves it: the choice of a
-- due dispatch row, and what is done with its task.
use night_voyager.Base.{
  ltb, leb, if◌then◌else◌, ◌==◌, nat_eq, string_eq, option_eq, length, any, all, list_eq, ℕ, ◌+◌,
  String, Bool, true, false, not, ◌&&◌, ◌||◌, Option, none, some, List, [], ◌∷◌, map,
}
use night_voyager.Base.Results.{Result, ok, err}
use night_voyager.Planning.Models.{Uuid}
use night_voyager.Tasks.Models.{
  AgentTaskState, agent_task_state_eq, adapter_failure_code_eq, PlanningOperation,
  generate_planning_run_v1, generate_governed_mixed_planning_run_v1, planning_operation_eq,
  AdapterId, deterministic_planning, governed_mixed_planning, adapter_id_eq, AdapterVersion, m4a_v1,
  dra_mixed_v1, adapter_version_eq,
}
use night_voyager.Decision.Intake.{codes}
use night_voyager.Skills.{
  skill_key_eq, SkillBindingKind, planning_runtime, skill_binding_kind_eq, SkillRuntimePin,
}
use night_voyager.Leases.Status.{ExecutionStatus, execution_status_eq}
use night_voyager.Leases.Rows.{
  ExecutionRow, EventRow, TaskRow, Task, is_leased, is_closed, has_lapsed, is_pending,
  append_agent_task_event,
}
use night_voyager.Leases.Calls.{lease_ms, ended, update_open, left, reschedule}

-- The columns that the claim reads of app.skill_versions and app.skill_activation_events.
pub record SkillVersionRow : Type 0 where
  pub definition_id : Uuid
  pub id : Uuid
  pub runtime_binding_sha256 : String
  pub binding_kind : SkillBindingKind

pub record ActivationRow : Type 0 where
  pub id : Uuid
  pub definition_id : Uuid
  pub activated_version_id : Uuid
  pub activation_sequence : ℕ

pub record SkillTables : Type 0 where
  pub versions : List SkillVersionRow
  pub activations : List ActivationRow

-- The `JOIN` of an activation and the pin, on a version.
unfoldable pub joins : SkillVersionRow → SkillRuntimePin → ActivationRow → Bool
joins v pin a =
    (a.definition_id == v.definition_id)
    && ((a.activated_version_id == v.id)
        && ((a.id == pin.skill_activation_event_id)
            && (a.activation_sequence == pin.skill_activation_sequence)))

-- The negation of the test before 'skill_pin_invalid'.
unfoldable pub is_pinned : SkillTables → Option SkillRuntimePin → Bool
is_pinned tables none = false
is_pinned tables (some pin) =
    any
      (λ v.
        any (joins v pin) tables.activations
        && ((v.definition_id == pin.skill_definition_id)
            && ((v.id == pin.skill_version_id)
                && ((v.runtime_binding_sha256 == pin.runtime_binding_sha256)
                    && (v.binding_kind == planning_runtime)))))
      tables.versions

-- A claim's effect on the task, and the generation that it returns, if it returns a row.
pub record Claimed : Type 0 where
  pub task : Task
  pub generation : Option ℕ

-- The task is ended, by a failure of code 'skill_pin_invalid'.
unfoldable pub unpinned : Task → Task
unpinned t = record {
  row = left AgentTaskState.failed (some "skill_pin_invalid") t.row;
  executions = t.executions;
  events =
      append_agent_task_event "failed" "failed" "skill_pin_invalid" t.row.attempt_count none
        t.events;
  dispatch = none;
}

-- `IF selected.attempt_count>=3`: the last lease has expired, and the task is ended
unfoldable pub given_up : ℕ → Task → Task
given_up now t = record {
  row = left AgentTaskState.failed (some "lease_expired") t.row;
  executions =
      update_open t.row.lease_generation
        (ended ExecutionStatus.failed false (some "lease_expired") now) t.executions;
  events =
      append_agent_task_event "failed" "failed" "lease_expired" t.row.attempt_count none t.events;
  dispatch = none;
}

-- `selected_adapter`
abbrev adapter_of : PlanningOperation → AdapterId
adapter_of generate_planning_run_v1 = deterministic_planning
adapter_of generate_governed_mixed_planning_run_v1 = governed_mixed_planning

-- `selected_adapter_version`
abbrev adapter_version_of : PlanningOperation → AdapterVersion
adapter_version_of generate_planning_run_v1 = m4a_v1
adapter_version_of generate_governed_mixed_planning_run_v1 = dra_mixed_v1

-- The row that is inserted into app.agent_executions.
unfoldable pub new_execution : Uuid → ℕ → TaskRow → ExecutionRow
new_execution id now row = record {
  id = id;
  attempt_no = row.attempt_count + 1;
  lease_generation = row.lease_generation + 1;
  adapter_id = adapter_of row.operation;
  adapter_version = adapter_version_of row.operation;
  status = ExecutionStatus.leased;
  retryable = false;
  fallback_used = false;
  input_sha256 = none;
  output_sha256 = none;
  result_planning_run_id = none;
  public_code = none;
  duration_ms = none;
  started_at = none;
  finished_at = none;
  created_at = now;
  skill_pin = row.skill_pin;
}

unfoldable pub leased_row : String → ℕ → TaskRow → TaskRow
leased_row worker now row = record row {
  state = AgentTaskState.leased;
  row_version = row.row_version + 1;
  attempt_count = row.attempt_count + 1;
  lease_owner = some worker;
  lease_generation = row.lease_generation + 1;
  lease_expires_at = some (now + lease_ms);
  terminal_code = none;
}

-- From `next_attempt` on, with the executions and events that the lines before left.
unfoldable pub leased_by : String → Uuid → ℕ → List ExecutionRow → List EventRow → Task → Claimed
leased_by worker id now executions events t = record {
  task = record {
    row = leased_row worker now t.row;
    executions = new_execution id now t.row ∷ executions;
    events =
        append_agent_task_event "lease_acquired" "preparing" "lease_acquired"
          (t.row.attempt_count + 1) none events;
    dispatch = reschedule (now + lease_ms) t.dispatch;
  };
  generation = some (t.row.lease_generation + 1);
}

-- `reclaimed`: the execution of the expired lease is closed first, and the event comes before the
-- new lease's
unfoldable pub reclaimed_by : String → Uuid → ℕ → Task → Claimed
reclaimed_by worker id now t =
    leased_by worker id now
      (update_open t.row.lease_generation
        (ended ExecutionStatus.retry_scheduled true (some "lease_expired") now) t.executions)
      (append_agent_task_event "lease_reclaimed" "preparing" "lease_expired"
        (t.row.attempt_count + 1) none t.events)
      t

abbrev pub nothing : Task → Claimed
nothing t = record { task = t; generation = none }

-- `IF selected.state IN ('leased','running')`
unfoldable pub claim_leased : String → Uuid → ℕ → Task → Claimed
claim_leased worker id now t =
    if is_pending t.row.lease_expires_at now
    then nothing (record t { dispatch = t.row.lease_expires_at })
    else if leb 3 t.row.attempt_count
    then nothing (given_up now t)
    else reclaimed_by worker id now t

-- What `claim_agent_task` does with the task of the chosen dispatch row.
unfoldable pub claim_task : SkillTables → String → Uuid → ℕ → Task → Claimed
claim_task tables worker id now t =
    if is_closed t.row.state
    then nothing (record t { dispatch = none })
    else if not (is_pinned tables t.row.skill_pin)
    then nothing (unpinned t)
    else if is_leased t.row.state
    then claim_leased worker id now t
    else leased_by worker id now t.executions t.events t

-- `NULLIF(btrim(p_worker),'') IS NULL OR length(p_worker)>200`
unfoldable pub is_worker_invalid : String → Bool
is_worker_invalid worker = all (λ c. c == 32) (codes worker) || ltb 200 (length (codes worker))

-- `d.available_at<=clock_timestamp()`, on the rows that no other transaction holds
unfoldable pub is_available : ℕ → (Uuid → Bool) → Task → Bool
is_available now locked t = has_lapsed t.dispatch now && not (locked t.row.id)

-- `ORDER BY d.available_at,d.task_id`
unfoldable pub comes_before : Task → Task → Bool
comes_before t u = precedes t.dispatch u.dispatch
  where
    precedes : Option ℕ → Option ℕ → Bool
    precedes (some m) (some n) = ltb m n || ((m == n) && ltb t.row.id u.row.id)
    precedes _ _ = false

abbrev pub first_of : Option Task → Task → Option Task
first_of none t = some t
first_of (some u) t = if comes_before u t then some u else some t

-- `SELECT ... FOR UPDATE SKIP LOCKED LIMIT 1`
unfoldable pub candidate : ℕ → (Uuid → Bool) → List Task → Option Task
candidate now locked [] = none
candidate now locked (t ∷ ts) =
    let rest = candidate now locked ts in
    if is_available now locked t then first_of rest t else rest

abbrev pub replace_task : Task → List Task → List Task
replace_task t ts = map (λ u. if u.row.id == t.row.id then t else u) ts

pub record AgentTaskClaimRow : Type 0 where
  pub task_id : Uuid
  pub lease_generation : ℕ

abbrev claim_row : Uuid → Option ℕ → Option AgentTaskClaimRow
claim_row id none = none
claim_row id (some generation) = some (record { task_id = id; lease_generation = generation })

unfoldable pub claim_candidate :
    SkillTables → String → Uuid → ℕ → List Task → Option Task → List Task × Option AgentTaskClaimRow
claim_candidate tables worker id now tasks none = (tasks, none)
claim_candidate tables worker id now tasks (some t) =
    let claimed = claim_task tables worker id now t in
    (replace_task claimed.task tasks, claim_row t.row.id claimed.generation)

-- `claim_agent_task`; `locked` are the dispatch rows that other transactions hold
unfoldable pub claim_agent_task :
    SkillTables
    → (Uuid → Bool)
    → String
    → Uuid
    → ℕ
    → List Task
    → Result (List Task × Option AgentTaskClaimRow)
claim_agent_task tables locked worker id now tasks =
    if is_worker_invalid worker
    then err "NV006"
    else ok (claim_candidate tables worker id now tasks (candidate now locked tasks))
