-- ===== src/Leases/Rows.antt =====
-- The tables app.agent_tasks, app.agent_executions, app.agent_task_events and
-- internal.agent_task_dispatch of migrations/versions/0004_agent_tasks_executions_events.py, with
-- the columns that later revisions add. A moment is a number of milliseconds. The rows are those of
-- one organization, which every statement of the functions names; of a task its executions, events
-- and dispatch row are kept with it, since every statement on them names the task.
use night_voyager.Leases.Status.{ExecutionStatus}
use night_voyager.Base.{
  ltb, leb, if◌then◌else◌, ℕ, ◌+◌, String, Bool, true, false, Option, none, some, List, [], ◌∷◌,
  ◌++◌,
}
use night_voyager.Planning.Models.{Uuid}
use night_voyager.Tasks.Models.{AgentTaskState, PlanningOperation, AdapterId, AdapterVersion}
use night_voyager.Skills.{SkillRuntimePin}

-- A row of app.agent_executions.
pub record ExecutionRow : Type 0 where
  pub id : Uuid
  pub attempt_no : ℕ
  pub lease_generation : ℕ
  pub adapter_id : AdapterId
  pub adapter_version : AdapterVersion
  pub status : ExecutionStatus
  pub retryable : Bool
  pub fallback_used : Bool
  pub input_sha256 : Option String
  pub output_sha256 : Option String
  pub result_planning_run_id : Option Uuid
  pub public_code : Option String
  pub duration_ms : Option ℕ
  pub started_at : Option ℕ
  pub finished_at : Option ℕ
  pub created_at : ℕ
  pub skill_pin : Option SkillRuntimePin

-- A row of app.agent_task_events.
pub record EventRow : Type 0 where
  pub event_sequence : ℕ
  pub event_code : String
  pub public_status : String
  pub public_code : Option String
  pub attempt_no : ℕ
  pub result_planning_run_id : Option Uuid

-- A row of app.agent_tasks. The five columns of the skill pin are null together or not at all.
pub record TaskRow : Type 0 where
  pub id : Uuid
  pub case_id : Uuid
  pub operation : PlanningOperation
  pub case_revision : ℕ
  pub source_pack_id : Uuid
  pub source_pack_version : ℕ
  pub policy_version : String
  pub predecessor_planning_run_id : Option Uuid
  pub skill_pin : Option SkillRuntimePin
  pub row_version : ℕ
  pub state : AgentTaskState
  pub attempt_count : ℕ
  pub lease_owner : Option String
  pub lease_generation : ℕ
  pub lease_expires_at : Option ℕ
  pub result_planning_run_id : Option Uuid
  pub terminal_code : Option String

-- A task with its executions, its events and the moment of its row of the dispatch, if it has one.
pub record Task : Type 0 where
  pub row : TaskRow
  pub executions : List ExecutionRow
  pub events : List EventRow
  pub dispatch : Option ℕ

-- `state IN ('leased','running')`
unfoldable pub is_leased : AgentTaskState → Bool
is_leased AgentTaskState.leased = true
is_leased AgentTaskState.running = true
is_leased _ = false

-- `state IN ('waiting_review','succeeded','blocked','timed_out','failed','cancelled')`
unfoldable pub is_closed : AgentTaskState → Bool
is_closed AgentTaskState.queued = false
is_closed AgentTaskState.leased = false
is_closed AgentTaskState.running = false
is_closed _ = true

-- `lease_expires_at<=clock_timestamp()`, and no answer where it is null
unfoldable pub has_lapsed : Option ℕ → ℕ → Bool
has_lapsed none now = false
has_lapsed (some expiry) now = leb expiry now

-- `lease_expires_at>clock_timestamp()`, and no answer where it is null
unfoldable pub is_pending : Option ℕ → ℕ → Bool
is_pending none now = false
is_pending (some expiry) now = ltb now expiry

-- `COALESCE(max(event_sequence),0)`
abbrev pub last_sequence : List EventRow → ℕ
last_sequence [] = 0
last_sequence (e ∷ es) =
    let rest = last_sequence es in if ltb rest e.event_sequence then e.event_sequence else rest

-- `append_agent_task_event`
unfoldable pub append_agent_task_event :
    String → String → String → ℕ → Option Uuid → List EventRow → List EventRow
append_agent_task_event event status code attempt result events =
    events
    ++ (record {
      event_sequence = last_sequence events + 1;
      event_code = event;
      public_status = status;
      public_code = some code;
      attempt_no = attempt;
      result_planning_run_id = result;
    }
        ∷ [])
