-- ===== src/Leases/Calls.antt =====
-- The calls of a worker on the task that it leased, and the cancellation: `start_agent_task`,
-- `heartbeat_agent_task`, `fail_agent_task` and the update of `cancel_agent_task` in
-- migrations/versions/0004_agent_tasks_executions_events.py. An error is the SQLSTATE that is
-- raised, and then nothing is changed. In one call the clock is read once.

use night_voyager.Leases.Status.{ExecutionStatus, execution_status_eq}
use night_voyager.Base.{
  ltb, leb, if◌then◌else◌, ◌==◌, ◌!=◌, nat_eq, string_eq, option_eq, length, all, list_eq, ℕ, ◌+◌,
  ◌-◌, String, Bool, true, false, not, ◌&&◌, ◌||◌, Option, none, some, List, map,
}
use night_voyager.Base.Results.{Result, ok, err}
use night_voyager.Tasks.Models.{
  AgentTaskState, agent_task_state_eq, agent_task_state_value, adapter_failure_code_eq,
  planning_operation_eq, adapter_id_eq, adapter_version_eq,
}
use night_voyager.Decision.Intake.{codes}
use night_voyager.Leases.Rows.{
  ExecutionRow, TaskRow, Task, is_leased, has_lapsed, is_pending, append_agent_task_event,
}

-- `interval '60 seconds'`
abbrev pub lease_ms : ℕ
lease_ms = 60000

-- `'^[0-9a-f]{64}$'`
unfoldable pub is_sha256 : String → Bool
is_sha256 text =
    (length (codes text) == 64)
    && all (λ c. (leb 48 c && leb c 57) || (leb 97 c && leb c 102)) (codes text)

-- `state NOT IN (...) OR lease_owner IS DISTINCT FROM p_worker OR lease_generation<>p_generation OR
-- lease_expires_at<=clock_timestamp()`, where `entered` is the test of the state
unfoldable pub has_lost : (AgentTaskState → Bool) → TaskRow → String → ℕ → ℕ → Bool
has_lost entered row worker generation now =
    not (entered row.state)
    || ((row.lease_owner != some worker)
        || ((row.lease_generation != generation) || has_lapsed row.lease_expires_at now))

abbrev coalesce : Option ℕ → ℕ → ℕ
coalesce (some moment) _ = moment
coalesce none moment = moment

-- The `UPDATE app.agent_executions` that ends an execution.
unfoldable pub ended : ExecutionStatus → Bool → Option String → ℕ → ExecutionRow → ExecutionRow
ended status retryable code now e = record e {
  status = status;
  retryable = retryable;
  public_code = code;
  duration_ms = some (now - coalesce e.started_at e.created_at);
  finished_at = some now;
}

-- `UPDATE app.agent_executions ... WHERE lease_generation=...`
unfoldable pub update_generation :
    ℕ → (ExecutionRow → ExecutionRow) → List ExecutionRow → List ExecutionRow
update_generation generation change executions =
    map (λ e. if e.lease_generation == generation then change e else e) executions

unfoldable pub is_open : ExecutionStatus → Bool
is_open ExecutionStatus.leased = true
is_open ExecutionStatus.running = true
is_open _ = false

-- `... AND status IN ('leased','running')`
unfoldable pub update_open :
    ℕ → (ExecutionRow → ExecutionRow) → List ExecutionRow → List ExecutionRow
update_open generation change executions =
    map (λ e. if (e.lease_generation == generation) && is_open e.status then change e else e)
      executions

-- The row of a task that leaves its lease.
unfoldable pub left : AgentTaskState → Option String → TaskRow → TaskRow
left state code row = record row {
  state = state;
  row_version = row.row_version + 1;
  lease_owner = none;
  lease_expires_at = none;
  terminal_code = code;
}

-- The writes of `start_agent_task`.
unfoldable pub begun : ℕ → String → ℕ → Task → Task
begun generation input_sha256 now t = record t {
  row = record t.row { state = AgentTaskState.running; row_version = t.row.row_version + 1 };
  executions =
      update_generation generation
        (λ e. record e {
          status = ExecutionStatus.running;
          input_sha256 = some input_sha256;
          started_at = some now;
        })
        t.executions;
  events =
      append_agent_task_event "execution_started" "preparing" "execution_started"
        t.row.attempt_count none t.events;
}

-- `state<>'leased'`, negated
unfoldable pub is_unstarted : AgentTaskState → Bool
is_unstarted state = state == AgentTaskState.leased

-- `start_agent_task`
unfoldable pub start_agent_task : String → ℕ → String → ℕ → Task → Result Task
start_agent_task worker generation input_sha256 now t =
    if not (is_sha256 input_sha256)
    then err "NV006"
    else if has_lost is_unstarted t.row worker generation now
    then err "NV010"
    else ok (begun generation input_sha256 now t)

-- `UPDATE internal.agent_task_dispatch SET available_at=...`, which finds the row or changes nothing
unfoldable pub reschedule : ℕ → Option ℕ → Option ℕ
reschedule moment none = none
reschedule moment (some _) = some moment

-- The writes of `heartbeat_agent_task`.
unfoldable pub renewed : ℕ → Task → Task
renewed now t = record t {
  row = record t.row { lease_expires_at = some (now + lease_ms) };
  dispatch = reschedule (now + lease_ms) t.dispatch;
}

-- The `WHERE` of the first `UPDATE`.
unfoldable pub holds_lease : TaskRow → String → ℕ → ℕ → Bool
holds_lease row worker generation now =
    (is_leased row.state && (row.lease_owner == some worker))
    && ((row.lease_generation == generation) && is_pending row.lease_expires_at now)

-- `heartbeat_agent_task`
unfoldable pub heartbeat_agent_task : String → ℕ → ℕ → Task → Result Task
heartbeat_agent_task worker generation now t =
    if holds_lease t.row worker generation now then ok (renewed now t) else err "NV010"

-- `CASE WHEN p_code='deadline_exceeded' THEN 'timed_out' ...`
unfoldable pub terminal_state_named : String → AgentTaskState
terminal_state_named code =
    if code == "deadline_exceeded"
    then AgentTaskState.timed_out
    else if code == "required_evidence_gap"
    then AgentTaskState.blocked
    else AgentTaskState.failed

unfoldable pub execution_status : AgentTaskState → ExecutionStatus
execution_status AgentTaskState.timed_out = ExecutionStatus.timed_out
execution_status AgentTaskState.blocked = ExecutionStatus.blocked
execution_status _ = ExecutionStatus.failed

abbrev public_status_of : AgentTaskState → String
public_status_of AgentTaskState.blocked = "needs_evidence"
public_status_of state = agent_task_state_value state

-- `IF p_retryable AND selected.attempt_count<3`: back to the queue
unfoldable pub requeued : ℕ → String → Bool → ℕ → Task → Task
requeued generation code fallback_used now t = record {
  row = left AgentTaskState.queued none t.row;
  executions =
      update_generation generation
        (λ e.
          ended ExecutionStatus.retry_scheduled true (some code) now
            (record e { fallback_used = fallback_used }))
        t.executions;
  events =
      append_agent_task_event "retry_scheduled" "preparing" code t.row.attempt_count none t.events;
  dispatch = reschedule now t.dispatch;
}

-- The rest of `fail_agent_task`: the end of the task
unfoldable pub ended_by : ℕ → String → Bool → ℕ → Task → Task
ended_by generation code fallback_used now t =
    let state = terminal_state_named code in
    record {
      row = left state (some code) t.row;
      executions =
          update_generation generation
            (λ e.
              ended (execution_status state) false (some code) now
                (record e { fallback_used = fallback_used }))
            t.executions;
      events =
          append_agent_task_event (agent_task_state_value state) (public_status_of state) code
            t.row.attempt_count none t.events;
      dispatch = none;
    }

-- `fail_agent_task`
unfoldable pub fail_agent_task : String → ℕ → String → Bool → Bool → ℕ → Task → Result Task
fail_agent_task worker generation code retryable fallback_used now t =
    if (fallback_used && (code != "fallback_authority"))
      || (not fallback_used && (code == "fallback_authority"))
    then err "NV006"
    else if has_lost is_leased t.row worker generation now
    then err "NV010"
    else if retryable && ltb t.row.attempt_count 3
    then ok (requeued generation code fallback_used now t)
    else ok (ended_by generation code fallback_used now t)

-- The writes of `cancel_agent_task`.
unfoldable pub cancelled_at : ℕ → Task → Task
cancelled_at now t = record {
  row = left AgentTaskState.cancelled (some "cancelled") t.row;
  executions =
      update_open t.row.lease_generation
        (ended ExecutionStatus.cancelled false (some "cancelled") now) t.executions;
  events =
      append_agent_task_event "cancelled" "cancelled" "cancelled" t.row.attempt_count none t.events;
  dispatch = none;
}

-- `cancel_agent_task`, from the test of the version on
unfoldable pub cancel_task : ℕ → ℕ → Task → Result Task
cancel_task expected_version now t =
    if (t.row.row_version != expected_version)
      || not ((t.row.state == AgentTaskState.queued) || is_leased t.row.state)
    then err "NV003"
    else ok (cancelled_at now t)
