-- ===== src/TimelineAuthority/Rows.antt =====
-- The tables of migrations/versions/0014_timeline_execution_authority.py. The rows are those of one
-- timeline plan of one organization; a moment is a number.
use night_voyager.Base.{
  ◌==◌, nat_eq, string_eq, option_eq, list_eq, ℕ, String, Bool, ◌&&◌, Option, some, List,
}
use night_voyager.Planning.Models.{Uuid}
use night_voyager.Calendar.{Date, date_eq}
use night_voyager.Decision.Models.{review_action_eq, decision_source_eq, TimelineMilestone}
use night_voyager.TimelineExecution.Enums.{
  timeline_execution_state_eq, TimelineCheckpointState, timeline_checkpoint_state_eq,
  timeline_risk_state_eq, CheckpointAttestationKind, checkpoint_attestation_kind_eq,
  CheckpointStatusCode, checkpoint_status_code_eq, CheckpointAttestationReasonCode,
  checkpoint_attestation_reason_code_eq, CheckpointVerificationAction,
  CheckpointVerificationReasonCode, checkpoint_verification_reason_code_eq,
}
use night_voyager.TimelineExecution.Models.{
  TimelineExecution, timeline_checkpoint_eq, TimelineReassessment, timeline_activity_item_eq,
}

pub record CheckpointRow : Type 0 where
  pub id : Uuid
  pub execution_id : Uuid
  pub ordinal : ℕ
  pub milestone_key : String
  pub due_date : Date
  pub accountable_role : String
  pub state : TimelineCheckpointState
  pub row_version : ℕ
  pub attested_at : Option ℕ
  pub verified_at : Option ℕ
  pub created_at : ℕ
  pub updated_at : ℕ

pub record AttestationRow : Type 0 where
  pub attestation_id : Uuid
  pub execution_id : Uuid
  pub checkpoint_id : Uuid
  pub reporter_actor_id : Uuid
  pub reporter_role : String
  pub attestation_kind : CheckpointAttestationKind
  pub status_code : CheckpointStatusCode
  pub attestation_code : String
  pub reason_code : CheckpointAttestationReasonCode
  pub observed_execution_version : ℕ
  pub observed_checkpoint_version : ℕ
  pub request_sha256 : String
  pub created_at : ℕ

pub record VerificationRow : Type 0 where
  pub verification_id : Uuid
  pub execution_id : Uuid
  pub checkpoint_id : Uuid
  pub attestation_id : Uuid
  pub advisor_actor_id : Uuid
  pub action : CheckpointVerificationAction
  pub reason_code : CheckpointVerificationReasonCode
  pub observed_execution_version : ℕ
  pub observed_checkpoint_version : ℕ
  pub request_sha256 : String
  pub created_at : ℕ

pub data ReassessmentTrigger : Type 0 where
  blocked_attestation deadline_elapsed : ReassessmentTrigger

-- The columns but for the digest of the accepted trigger.
pub record ReassessmentRow : Type 0 where
  pub reassessment : TimelineReassessment
  pub advisor_actor_id : Uuid
  pub trigger : ReassessmentTrigger
  pub trigger_reference_id : Option Uuid
  pub observed_execution_version : ℕ
  pub observed_checkpoint_version : ℕ
  pub request_sha256 : String
  pub accepted_database_date : Date
  pub created_at : ℕ

pub record ReceiptRow : Type 0 where
  pub receipt_id : Uuid
  pub actor_id : Uuid
  pub operation : String
  pub key_sha256 : String
  pub request_sha256 : String
  pub result_kind : String
  pub result_id : Uuid
  pub execution_id : Uuid
  pub checkpoint_id : Option Uuid
  pub before_execution_version : Option ℕ
  pub after_execution_version : ℕ
  pub before_checkpoint_version : Option ℕ
  pub after_checkpoint_version : Option ℕ
  pub created_at : ℕ

-- A row of app.idempotency_records.
pub record IdempotencyRow : Type 0 where
  pub actor_id : Uuid
  pub operation : String
  pub key_sha256 : String
  pub request_sha256 : String
  pub response_kind : String
  pub response_id : Uuid
  pub created_at : ℕ

-- A row of app.student_case_participants.
pub record ParticipantRow : Type 0 where
  pub case_id : Uuid
  pub actor_id : Uuid
  pub role : String

-- The plan with its decision and its case, which `start_timeline_execution` joins.
pub record Anchor : Type 0 where
  pub timeline_id : Uuid
  pub milestones : List TimelineMilestone
  pub decision_id : Uuid
  pub receipt_id : Uuid
  pub case_id : Uuid
  pub current_revision : ℕ

-- The latest row of a table comes first, but the checkpoints stand in the order of their ordinals.
pub record Timeline : Type 0 where
  pub anchor : Anchor
  pub participants : List ParticipantRow
  pub execution : Option TimelineExecution
  pub checkpoints : List CheckpointRow
  pub attestations : List AttestationRow
  pub verifications : List VerificationRow
  pub reassessments : List ReassessmentRow
  pub receipts : List ReceiptRow
  pub idempotency : List IdempotencyRow

-- Who calls, and the settings of the session.
pub record Caller : Type 0 where
  pub actor : Uuid
  pub role : String
  pub session_actor : Option Uuid
  pub session_role : Option String

-- The parameters of a call that make it repeatable.
pub record Request : Type 0 where
  pub receipt : Uuid
  pub key_sha256 : String
  pub request_sha256 : String

-- The parameters of a call that say what it is about.
pub record Target : Type 0 where
  pub case_id : Uuid
  pub execution_id : Uuid
  pub checkpoint_id : Uuid
  pub execution_version : ℕ
  pub checkpoint_version : ℕ

-- `assert_m3b_context`, within the organization
unfoldable pub has_context : Caller → Bool
has_context caller =
    (caller.session_actor == some caller.actor) && (caller.session_role == some caller.role)

-- The actor takes part in the case in the role.
unfoldable pub is_participant : Uuid → Uuid → String → ParticipantRow → Bool
is_participant case_id actor role p =
    (p.case_id == case_id) && ((p.actor_id == actor) && (p.role == role))
