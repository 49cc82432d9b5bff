-- ===== src/TimelineExecution/Enums.antt =====
-- The enumerations of timeline_execution/models.py.
use night_voyager.Base.{HasEq, ◌≡◌, ◌↔◌, Bool, true, false, arith}

pub data TimelineExecutionState : Type 0 where
  active reassessment_required completed : TimelineExecutionState

abbrev pub timeline_execution_state_beq : TimelineExecutionState → TimelineExecutionState → Bool
timeline_execution_state_beq active active = true
timeline_execution_state_beq reassessment_required reassessment_required = true
timeline_execution_state_beq completed completed = true
timeline_execution_state_beq _ _ = false

pub timeline_execution_state_beq_iff :
    (a b : TimelineExecutionState) → (timeline_execution_state_beq a b ≡ true) ↔ (a ≡ b)
timeline_execution_state_beq_iff a b = ground arith

instance abbrev pub timeline_execution_state_eq : HasEq TimelineExecutionState
timeline_execution_state_eq = record {
  eqb = timeline_execution_state_beq;
  eqb_iff = timeline_execution_state_beq_iff;
}

pub data TimelineCheckpointState : Type 0 where
  pending in_progress awaiting_advisor verified blocked : TimelineCheckpointState

abbrev pub timeline_checkpoint_state_beq : TimelineCheckpointState → TimelineCheckpointState → Bool
timeline_checkpoint_state_beq pending pending = true
timeline_checkpoint_state_beq in_progress in_progress = true
timeline_checkpoint_state_beq awaiting_advisor awaiting_advisor = true
timeline_checkpoint_state_beq verified verified = true
timeline_checkpoint_state_beq blocked blocked = true
timeline_checkpoint_state_beq _ _ = false

pub timeline_checkpoint_state_beq_iff :
    (a b : TimelineCheckpointState) → (timeline_checkpoint_state_beq a b ≡ true) ↔ (a ≡ b)
timeline_checkpoint_state_beq_iff a b = ground arith

instance abbrev pub timeline_checkpoint_state_eq : HasEq TimelineCheckpointState
timeline_checkpoint_state_eq = record {
  eqb = timeline_checkpoint_state_beq;
  eqb_iff = timeline_checkpoint_state_beq_iff;
}

pub data TimelineRiskState : Type 0 where
  on_track due_soon overdue : TimelineRiskState

abbrev pub timeline_risk_state_beq : TimelineRiskState → TimelineRiskState → Bool
timeline_risk_state_beq on_track on_track = true
timeline_risk_state_beq due_soon due_soon = true
timeline_risk_state_beq overdue overdue = true
timeline_risk_state_beq _ _ = false

pub timeline_risk_state_beq_iff :
    (a b : TimelineRiskState) → (timeline_risk_state_beq a b ≡ true) ↔ (a ≡ b)
timeline_risk_state_beq_iff a b = ground arith

instance abbrev pub timeline_risk_state_eq : HasEq TimelineRiskState
timeline_risk_state_eq = record {
  eqb = timeline_risk_state_beq;
  eqb_iff = timeline_risk_state_beq_iff;
}

-- `blocked` is `blocked_kind` here.
pub data CheckpointAttestationKind : Type 0 where
  progress completion blocked_kind : CheckpointAttestationKind

abbrev pub checkpoint_attestation_kind_beq :
    CheckpointAttestationKind → CheckpointAttestationKind → Bool
checkpoint_attestation_kind_beq progress progress = true
checkpoint_attestation_kind_beq completion completion = true
checkpoint_attestation_kind_beq blocked_kind blocked_kind = true
checkpoint_attestation_kind_beq _ _ = false

pub checkpoint_attestation_kind_beq_iff :
    (a b : CheckpointAttestationKind) → (checkpoint_attestation_kind_beq a b ≡ true) ↔ (a ≡ b)
checkpoint_attestation_kind_beq_iff a b = ground arith

instance abbrev pub checkpoint_attestation_kind_eq : HasEq CheckpointAttestationKind
checkpoint_attestation_kind_eq = record {
  eqb = checkpoint_attestation_kind_beq;
  eqb_iff = checkpoint_attestation_kind_beq_iff;
}

pub data CheckpointStatusCode : Type 0 where
  work_in_progress ready_for_advisor work_blocked : CheckpointStatusCode

abbrev pub checkpoint_status_code_beq : CheckpointStatusCode → CheckpointStatusCode → Bool
checkpoint_status_code_beq work_in_progress work_in_progress = true
checkpoint_status_code_beq ready_for_advisor ready_for_advisor = true
checkpoint_status_code_beq work_blocked work_blocked = true
checkpoint_status_code_beq _ _ = false

pub checkpoint_status_code_beq_iff :
    (a b : CheckpointStatusCode) → (checkpoint_status_code_beq a b ≡ true) ↔ (a ≡ b)
checkpoint_status_code_beq_iff a b = ground arith

instance abbrev pub checkpoint_status_code_eq : HasEq CheckpointStatusCode
checkpoint_status_code_eq = record {
  eqb = checkpoint_status_code_beq;
  eqb_iff = checkpoint_status_code_beq_iff;
}

pub data CheckpointAttestationReasonCode : Type 0 where
  not_applicable missing_required_input external_dependency_unavailable deadline_at_risk :
      CheckpointAttestationReasonCode

abbrev pub checkpoint_attestation_reason_code_beq :
    CheckpointAttestationReasonCode → CheckpointAttestationReasonCode → Bool
checkpoint_attestation_reason_code_beq not_applicable not_applicable = true
checkpoint_attestation_reason_code_beq missing_required_input missing_required_input = true
checkpoint_attestation_reason_code_beq external_dependency_unavailable
      external_dependency_unavailable =
    true
checkpoint_attestation_reason_code_beq deadline_at_risk deadline_at_risk = true
checkpoint_attestation_reason_code_beq _ _ = false

pub checkpoint_attestation_reason_code_beq_iff :
    (a b : CheckpointAttestationReasonCode)
    → (checkpoint_attestation_reason_code_beq a b ≡ true) ↔ (a ≡ b)
checkpoint_attestation_reason_code_beq_iff a b = ground arith

instance abbrev pub checkpoint_attestation_reason_code_eq : HasEq CheckpointAttestationReasonCode
checkpoint_attestation_reason_code_eq = record {
  eqb = checkpoint_attestation_reason_code_beq;
  eqb_iff = checkpoint_attestation_reason_code_beq_iff;
}

pub data CheckpointVerificationAction : Type 0 where
  verify request_update : CheckpointVerificationAction

pub data CheckpointVerificationReasonCode : Type 0 where
  attestation_verified status_update_required status_inconsistent : CheckpointVerificationReasonCode

abbrev pub checkpoint_verification_reason_code_beq :
    CheckpointVerificationReasonCode → CheckpointVerificationReasonCode → Bool
checkpoint_verification_reason_code_beq attestation_verified attestation_verified = true
checkpoint_verification_reason_code_beq status_update_required status_update_required = true
checkpoint_verification_reason_code_beq status_inconsistent status_inconsistent = true
checkpoint_verification_reason_code_beq _ _ = false

pub checkpoint_verification_reason_code_beq_iff :
    (a b : CheckpointVerificationReasonCode)
    → (checkpoint_verification_reason_code_beq a b ≡ true) ↔ (a ≡ b)
checkpoint_verification_reason_code_beq_iff a b = ground arith

instance abbrev pub checkpoint_verification_reason_code_eq : HasEq CheckpointVerificationReasonCode
checkpoint_verification_reason_code_eq = record {
  eqb = checkpoint_verification_reason_code_beq;
  eqb_iff = checkpoint_verification_reason_code_beq_iff;
}

pub data TimelineCurrentActionCode : Type 0 where
  checkpoint_attestation_required advisor_verification_required execution_completed
        reassessment_handoff_required :
      TimelineCurrentActionCode
