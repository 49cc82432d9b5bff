-- ===== src/TimelineExecution/Models.antt =====
-- The values of timeline_execution/models.py that the policy decides on. A moment is a number.
use night_voyager.TimelineExecution.Enums.{
  TimelineExecutionState, timeline_execution_state_eq, TimelineCheckpointState,
  timeline_checkpoint_state_beq_iff, timeline_checkpoint_state_eq, TimelineRiskState,
  timeline_risk_state_beq_iff, timeline_risk_state_eq, checkpoint_attestation_kind_eq,
  checkpoint_status_code_eq, checkpoint_attestation_reason_code_eq,
  checkpoint_verification_reason_code_eq, TimelineCurrentActionCode,
}
use night_voyager.Base.{
  HasEq, ◌==◌, nat_eq, string_eq, option_beq_iff, option_eq, list_eq, ℕ, String, ◌≡◌, ◌↔◌, Bool,
  true, ◌&&◌, Option, List, arith,
}
use night_voyager.Base.Int.{ℤ}
use night_voyager.Calendar.{Date, date_eq}
use night_voyager.Planning.Models.{Uuid}

pub record CheckpointSeed : Type 0 where
  pub ordinal : ℕ
  pub milestone_key : String
  pub due_date : Date
  pub accountable_role : String

pub record TimelineExecution : Type 0 where
  pub execution_id : Uuid
  pub case_id : Uuid
  pub case_revision : ℕ
  pub decision_id : Uuid
  pub decision_receipt_id : Uuid
  pub timeline_plan_id : Uuid
  pub state : TimelineExecutionState
  pub row_version : ℕ
  pub created_at : ℕ
  pub updated_at : ℕ

pub record TimelineCheckpoint : Type 0 where
  pub checkpoint_id : Uuid
  pub execution_id : Uuid
  pub ordinal : ℕ
  pub milestone_key : String
  pub due_date : Date
  pub accountable_role : String
  pub state : TimelineCheckpointState
  pub risk_state : TimelineRiskState
  pub row_version : ℕ
  pub created_at : ℕ
  pub updated_at : ℕ

abbrev pub timeline_checkpoint_beq : TimelineCheckpoint → TimelineCheckpoint → Bool
timeline_checkpoint_beq a b =
    (a.checkpoint_id == b.checkpoint_id)
    && ((a.execution_id == b.execution_id)
        && ((a.ordinal == b.ordinal)
            && ((a.milestone_key == b.milestone_key)
                && ((a.due_date == b.due_date)
                    && ((a.accountable_role == b.accountable_role)
                        && ((a.state == b.state)
                            && ((a.risk_state == b.risk_state)
                                && ((a.row_version == b.row_version)
                                    && ((a.created_at == b.created_at)
                                        && (a.updated_at == b.updated_at))))))))))

pub timeline_checkpoint_beq_iff :
    (a b : TimelineCheckpoint) → (timeline_checkpoint_beq a b ≡ true) ↔ (a ≡ b)
timeline_checkpoint_beq_iff a b = ground (
  arith,
  nat_eq.eqb_iff a.checkpoint_id b.checkpoint_id,
  nat_eq.eqb_iff a.execution_id b.execution_id,
  string_eq.eqb_iff a.milestone_key b.milestone_key,
  date_eq.eqb_iff a.due_date b.due_date,
  string_eq.eqb_iff a.accountable_role b.accountable_role,
  timeline_checkpoint_state_beq_iff a.state b.state,
  timeline_risk_state_beq_iff a.risk_state b.risk_state,
)

instance abbrev pub timeline_checkpoint_eq : HasEq TimelineCheckpoint
timeline_checkpoint_eq = record {
  eqb = timeline_checkpoint_beq;
  eqb_iff = timeline_checkpoint_beq_iff;
}

pub record TimelineCurrentAction : Type 0 where
  pub code : TimelineCurrentActionCode
  pub owner_role : String
  pub checkpoint_id : Option Uuid
  pub execution_version : ℕ
  pub checkpoint_version : Option ℕ

-- `TimelineReassessmentRequestV1`, the fields that the view checks.
pub record TimelineReassessment : Type 0 where
  pub reassessment_id : Uuid
  pub execution_id : Uuid
  pub checkpoint_id : Uuid
  pub predecessor_case_id : Uuid
  pub predecessor_case_revision : ℕ
  pub predecessor_decision_id : Uuid
  pub predecessor_decision_receipt_id : Uuid
  pub predecessor_timeline_plan_id : Uuid
  pub predecessor_execution_id : Uuid
  pub predecessor_checkpoint_id : Uuid

pub record TimelineActivityItem : Type 0 where
  pub durable_id : Uuid
  pub execution_id : Uuid
  pub checkpoint_id : Option Uuid
  pub created_at : ℕ

abbrev pub timeline_activity_item_beq : TimelineActivityItem → TimelineActivityItem → Bool
timeline_activity_item_beq a b =
    (a.durable_id == b.durable_id)
    && ((a.execution_id == b.execution_id)
        && ((a.checkpoint_id == b.checkpoint_id) && (a.created_at == b.created_at)))

pub timeline_activity_item_beq_iff :
    (a b : TimelineActivityItem) → (timeline_activity_item_beq a b ≡ true) ↔ (a ≡ b)
timeline_activity_item_beq_iff a b = ground (arith, option_beq_iff a.checkpoint_id b.checkpoint_id)

instance abbrev pub timeline_activity_item_eq : HasEq TimelineActivityItem
timeline_activity_item_eq = record {
  eqb = timeline_activity_item_beq;
  eqb_iff = timeline_activity_item_beq_iff;
}

-- `TimelineExecutionViewV1`, without the latest attestation and verification, which it only shows.
pub record TimelineExecutionView : Type 0 where
  pub execution : TimelineExecution
  pub checkpoints : List TimelineCheckpoint
  pub current_checkpoint : Option TimelineCheckpoint
  pub reassessment : Option TimelineReassessment
  pub activity : List TimelineActivityItem
  pub activity_total : ℤ
  pub activity_truncated : Bool
