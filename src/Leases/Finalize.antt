-- ===== src/Leases/Finalize.antt =====
-- `persist_planning_result` and `finalize_agent_task_result`: migrations/versions/0004 and 0007, as
-- the replacements in 0012_versioned_planning_revision.py leave them. Of the rows that are stored
-- under a planning run, those of its routes, costs and rankings are one value here, `output`.
use night_voyager.Base.{
  if◌then◌else◌, is_none, ◌==◌, ◌!=◌, nat_eq, string_eq, option_eq, any, list_eq, ℕ, ◌+◌, String,
  Bool, true, false, not, ◌&&◌, ◌||◌, Option, none, some, List, ◌∷◌,
}
use night_voyager.Base.Results.{Result, ok, err}
use night_voyager.Planning.Models.{Uuid}
use night_voyager.Planning.Enums.{
  evidence_authority_eq, evidence_class_eq, redistribution_class_eq, country_eq, route_outcome_eq,
  RunState, run_state_eq, CaseState, case_state_eq,
}
use night_voyager.Tasks.Models.{
  AgentTaskState, agent_task_state_eq, agent_task_state_value, adapter_failure_code_eq,
  planning_operation_eq, adapter_id_eq, adapter_version_eq,
}
use night_voyager.Leases.Status.{ExecutionStatus, execution_status_eq}
use night_voyager.Leases.Rows.{ExecutionRow, TaskRow, Task, is_leased, append_agent_task_event}
use night_voyager.Leases.Calls.{has_lost, ended, update_generation, left}

pub record CaseRow : Type 0 where
  pub id : Uuid
  pub state : CaseState
  pub current_revision : ℕ

pub record RevisionRow : Type 0 where
  pub case_id : Uuid
  pub revision : ℕ
  pub superseded_planning_run_id : Option Uuid

pub record PlanningRunRow : Type 0 where
  pub id : Uuid
  pub case_id : Uuid
  pub case_revision : ℕ
  pub source_pack_id : Uuid
  pub source_pack_version : ℕ
  pub policy_version : String
  pub evidence_projection_sha256 : String
  pub state : RunState
  pub reason_code : Option String
  pub output_sha256 : Option String
  pub supersedes_run_id : Option Uuid
  pub is_current : Bool
  pub output : String

pub record PlanningTables : Type 0 where
  pub cases : List CaseRow
  pub revisions : List RevisionRow
  pub runs : List PlanningRunRow

-- The parameters of `finalize_agent_task_result` that describe the result.
pub record FinalResult : Type 0 where
  pub run : Uuid
  pub evidence_hash : String
  pub state : RunState
  pub reason : String
  pub output_hash : String
  pub output : String
  pub supersedes : Option Uuid

-- `p_state IN ('review_required','blocked','failed')`
unfoldable pub is_result_state : RunState → Bool
is_result_state RunState.review_required = true
is_result_state RunState.blocked = true
is_result_state RunState.failed = true
is_result_state _ = false

-- The case is at the revision, and being planned.
unfoldable pub is_case_planned : Uuid → ℕ → CaseRow → Bool
is_case_planned case_id revision c =
    (c.id == case_id) && ((c.current_revision == revision) && (c.state == CaseState.planning))

-- The revision has the lineage.
unfoldable pub has_lineage : Uuid → ℕ → Option Uuid → RevisionRow → Bool
has_lineage case_id revision supersedes r =
    (r.case_id == case_id)
    && ((r.revision == revision) && (r.superseded_planning_run_id == supersedes))

-- A run that may be superseded: of the case, of the revision before, and not current.
unfoldable pub is_predecessor : Uuid → ℕ → Uuid → PlanningRunRow → Bool
is_predecessor case_id revision supersedes r =
    (r.id == supersedes)
    && ((r.case_id == case_id) && ((r.case_revision + 1 == revision) && not r.is_current))

unfoldable pub is_predecessor_lost : Uuid → ℕ → Option Uuid → List PlanningRunRow → Bool
is_predecessor_lost case_id revision none runs = false
is_predecessor_lost case_id revision (some supersedes) runs =
    not (any (is_predecessor case_id revision supersedes) runs)

-- A key or a unique index of app.planning_runs has the new run's values already.
unfoldable pub is_duplicate : Uuid → FinalResult → PlanningRunRow → Bool
is_duplicate case_id result r =
    (r.id == result.run)
    || ((r.is_current && (r.case_id == case_id))
        || (not (is_none result.supersedes) && (r.supersedes_run_id == result.supersedes)))

-- The row as the `UPDATE` after the `INSERT` leaves it.
unfoldable pub run_row : TaskRow → FinalResult → PlanningRunRow
run_row task result = record {
  id = result.run;
  case_id = task.case_id;
  case_revision = task.case_revision;
  source_pack_id = task.source_pack_id;
  source_pack_version = task.source_pack_version;
  policy_version = task.policy_version;
  evidence_projection_sha256 = result.evidence_hash;
  state = result.state;
  reason_code = some result.reason;
  output_sha256 = some result.output_hash;
  supersedes_run_id = result.supersedes;
  is_current = true;
  output = result.output;
}

-- `persist_planning_result`, with the pins of the task
unfoldable pub persist_planning_result :
    TaskRow → FinalResult → PlanningTables → Result PlanningTables
persist_planning_result task result tables =
    if not (is_result_state result.state)
    then err "NV006"
    else if not (any (is_case_planned task.case_id task.case_revision) tables.cases)
    then err "NV003"
    else if not
        (any (has_lineage task.case_id task.case_revision result.supersedes) tables.revisions)
    then err "NV003"
    else if is_predecessor_lost task.case_id task.case_revision result.supersedes tables.runs
    then err "NV003"
    else if any (is_duplicate task.case_id result) tables.runs
    then err "23505"
    else ok (record tables { runs = run_row task result ∷ tables.runs })

-- `target_state`
unfoldable pub target_state : RunState → AgentTaskState
target_state RunState.review_required = AgentTaskState.waiting_review
target_state RunState.blocked = AgentTaskState.blocked
target_state _ = AgentTaskState.failed

-- The status of the execution that is finalized.
unfoldable pub target_execution : RunState → ExecutionStatus
target_execution RunState.review_required = ExecutionStatus.succeeded
target_execution RunState.blocked = ExecutionStatus.blocked
target_execution _ = ExecutionStatus.failed

-- `target_status`
abbrev target_status : RunState → String
target_status RunState.review_required = "needs_advisor_review"
target_status RunState.blocked = "needs_evidence"
target_status _ = "failed"

-- `CASE WHEN p_state='review_required' THEN NULL ELSE p_reason END`
unfoldable pub target_code : FinalResult → Option String
target_code result = if result.state == RunState.review_required then none else some result.reason

-- The writes after `persist_planning_result`.
unfoldable pub finalized : ℕ → FinalResult → ℕ → Task → Task
finalized generation result now t = record {
  row = record (left (target_state result.state) (target_code result) t.row) {
    result_planning_run_id = some result.run;
  };
  executions =
      update_generation generation
        (λ e. ended (target_execution result.state) false (some result.reason) now (record e {
          output_sha256 = some result.output_hash;
          result_planning_run_id = some result.run;
        }))
        t.executions;
  events =
      append_agent_task_event (agent_task_state_value (target_state result.state))
        (target_status result.state) result.reason t.row.attempt_count (some result.run) t.events;
  dispatch = none;
}

-- The stored run and execution that a repeated call must agree with.
unfoldable pub is_same_run : FinalResult → PlanningRunRow → Bool
is_same_run result r =
    (r.id == result.run)
    && ((r.state == result.state)
        && ((r.reason_code == some result.reason)
            && ((r.evidence_projection_sha256 == result.evidence_hash)
                && ((r.output_sha256 == some result.output_hash)
                    && (r.supersedes_run_id == result.supersedes)))))

unfoldable pub is_same_execution : ℕ → FinalResult → ExecutionRow → Bool
is_same_execution generation result e =
    (e.lease_generation == generation)
    && ((e.status == target_execution result.state)
        && ((e.output_sha256 == some result.output_hash)
            && ((e.result_planning_run_id == some result.run)
                && (e.public_code == some result.reason))))

-- A task that was finalized with this run.
unfoldable pub is_replay : FinalResult → TaskRow → Bool
is_replay result row =
    (row.result_planning_run_id == some result.run)
    && ((row.state == AgentTaskState.waiting_review)
        || ((row.state == AgentTaskState.blocked) || (row.state == AgentTaskState.failed)))

-- The repeated call changes nothing.
unfoldable pub replayed : ℕ → FinalResult → PlanningTables → Task → Result (PlanningTables × Task)
replayed generation result tables t =
    if t.row.lease_generation != generation
    then err "NV010"
    else if (t.row.state != target_state result.state)
        || ((result.supersedes != t.row.predecessor_planning_run_id)
            || (not (any (is_same_run result) tables.runs)
                || not (any (is_same_execution generation result) t.executions)))
    then err "NV008"
    else ok (tables, t)

unfoldable pub stored :
    ℕ → FinalResult → ℕ → Task → Result PlanningTables → Result (PlanningTables × Task)
stored generation result now t (err code) = err code
stored generation result now t (ok tables) = ok (tables, finalized generation result now t)

-- `finalize_agent_task_result`
unfoldable pub finalize_agent_task_result :
    String → ℕ → FinalResult → ℕ → PlanningTables → Task → Result (PlanningTables × Task)
finalize_agent_task_result worker generation result now tables t =
    if is_replay result t.row
    then replayed generation result tables t
    else if has_lost is_leased t.row worker generation now
    then err "NV010"
    else if not (is_result_state result.state)
    then err "NV006"
    else if result.supersedes != t.row.predecessor_planning_run_id
    then err "NV003"
    else stored generation result now t (persist_planning_result t.row result tables)
