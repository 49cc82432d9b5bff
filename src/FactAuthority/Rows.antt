-- ===== src/FactAuthority/Rows.antt =====
-- The tables of migrations/versions/0007_conversation_and_memory.py that hold the candidates and the
-- facts of a case, and the columns of other tables that the functions read. The rows are those of
-- one case; a moment is a number of milliseconds. A key and a value that do not fit, which the
-- validator refuses, are not of the type of a value.
use night_voyager.Base.{
  ◌==◌, nat_eq, string_eq, option_eq, list_eq, ℕ, String, Bool, ◌&&◌, ◌||◌, Option, List,
}
use night_voyager.Planning.Enums.{
  evidence_authority_eq, evidence_class_eq, redistribution_class_eq, country_eq, route_outcome_eq,
  RunState, run_state_eq, CaseState, case_state_eq,
}
use night_voyager.Planning.Models.{Uuid, StudentCaseRevision}
use night_voyager.Tasks.Models.{
  AgentTaskState, agent_task_state_eq, adapter_failure_code_eq, planning_operation_eq,
  adapter_id_eq, adapter_version_eq,
}
use night_voyager.Decision.Models.{ReviewAction, review_action_eq, decision_source_eq}
use night_voyager.Collaboration.Models.{
  FactKey, fact_key_eq, memory_candidate_state_eq, VerificationDecision, verification_decision_eq,
  FactProposal, fact_key_of,
}
use night_voyager.TimelineAuthority.Rows.{IdempotencyRow, ParticipantRow, Caller, has_context}

-- A row of app.message_events.
pub record MessageRow : Type 0 where
  pub id : Uuid
  pub actor_id : Uuid
  pub actor_role : String

-- A row of app.memory_candidates.
pub record CandidateRow : Type 0 where
  pub id : Uuid
  pub case_revision : ℕ
  pub message_event_id : Uuid
  pub subject_actor_id : Uuid
  pub subject_role : String
  pub proposing_actor_id : Uuid
  pub proposing_role : String
  pub proposed_value : FactProposal
  pub value_sha256 : String
  pub request_sha256 : String
  pub created_at : ℕ
  pub expires_at : ℕ

-- A row of app.memory_candidate_verifications.
pub record CandidateVerification : Type 0 where
  pub id : Uuid
  pub candidate_id : Uuid
  pub advisor_actor_id : Uuid
  pub decision : VerificationDecision
  pub reason : String
  pub request_sha256 : String
  pub result_fact_id : Option Uuid
  pub result_revision : Option ℕ

-- A row of app.confirmed_facts.
pub record FactRow : Type 0 where
  pub id : Uuid
  pub value : FactProposal
  pub value_sha256 : String
  pub source_candidate_id : Uuid
  pub source_message_event_id : Uuid
  pub subject_actor_id : Uuid
  pub subject_role : String
  pub confirming_advisor_actor_id : Uuid
  pub supersedes_fact_id : Option Uuid
  pub fact_version : ℕ

-- A row of app.case_revision_confirmed_fact_refs.
pub record FactRefRow : Type 0 where
  pub case_revision : ℕ
  pub fact_key : FactKey
  pub confirmed_fact_id : Uuid

-- A row of app.student_case_revisions.
pub record CaseRevisionRow : Type 0 where
  pub content : StudentCaseRevision
  pub revision_requested_by_review_id : Option Uuid
  pub superseded_planning_run_id : Option Uuid

-- Columns of app.planning_runs.
pub record CaseRun : Type 0 where
  pub id : Uuid
  pub case_revision : ℕ
  pub state : RunState
  pub is_current : Bool
  pub source_pack_id : Uuid
  pub source_pack_version : ℕ
  pub policy_version : String

-- Columns of app.advisor_reviews.
pub record ReviewRow : Type 0 where
  pub id : Uuid
  pub case_revision : ℕ
  pub planning_run_id : Uuid
  pub action : ReviewAction

-- Columns of app.agent_tasks.
pub record CaseTask : Type 0 where
  pub case_revision : ℕ
  pub state : AgentTaskState
  pub result_planning_run_id : Option Uuid

-- Columns of app.audit_events.
pub record AuditRow : Type 0 where
  pub actor_id : Uuid
  pub event_type : String
  pub subject_id : Uuid

-- The latest row of a table comes first. `is_decided` says that the case has a family decision.
pub record CaseFacts : Type 0 where
  pub organization_id : Uuid
  pub case_id : Uuid
  pub state : CaseState
  pub current_revision : Option ℕ
  pub participants : List ParticipantRow
  pub messages : List MessageRow
  pub candidates : List CandidateRow
  pub verifications : List CandidateVerification
  pub facts : List FactRow
  pub refs : List FactRefRow
  pub revisions : List CaseRevisionRow
  pub runs : List CaseRun
  pub reviews : List ReviewRow
  pub tasks : List CaseTask
  pub is_decided : Bool
  pub audit : List AuditRow
  pub idempotency : List IdempotencyRow

abbrev pub key_of : FactRow → FactKey
key_of f = fact_key_of f.value

-- `assert_collaboration_context`
unfoldable pub has_collaboration_context : Caller → Bool
has_collaboration_context caller =
    ((caller.role == "advisor") || ((caller.role == "student") || (caller.role == "parent")))
    && has_context caller
