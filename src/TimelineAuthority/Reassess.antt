-- ===== src/TimelineAuthority/Reassess.antt =====
-- `request_timeline_reassessment`. `today` is `CURRENT_DATE`.
use night_voyager.Base.{
  if◌then◌else◌, is_none, ◌==◌, ◌!=◌, nat_eq, string_eq, option_eq, any, select, list_eq, ℕ, Bool,
  true, not, ◌&&◌, ◌||◌, Option, none, some, List, ◌∷◌,
}
use night_voyager.Base.Results.{Result, ok, err}
use night_voyager.Calendar.{Date, date_eq, date_ltb}
use night_voyager.Planning.Models.{Uuid}
use night_voyager.TimelineExecution.Enums.{
  TimelineExecutionState, timeline_execution_state_eq, TimelineCheckpointState,
  timeline_checkpoint_state_eq, timeline_risk_state_eq, blocked_kind,
  checkpoint_attestation_kind_eq, checkpoint_status_code_eq, checkpoint_attestation_reason_code_eq,
  checkpoint_verification_reason_code_eq,
}
use night_voyager.TimelineExecution.Models.{
  TimelineExecution, timeline_checkpoint_eq, timeline_activity_item_eq,
}
use night_voyager.TimelineAuthority.Rows.{
  CheckpointRow, AttestationRow, ReassessmentTrigger, blocked_attestation, deadline_elapsed,
  ReassessmentRow, Timeline, Caller, Request, Target, is_participant,
}
use night_voyager.TimelineAuthority.Gate.{
  Outcome, is_request_invalid, is_target_invalid, on_current,
}
use night_voyager.TimelineAuthority.Writes.{next_version, recorded}
use night_voyager.TimelineAuthority.Verify.{latest, attestation_id_of, is_attestation_on}

-- The parameters of a reassessment.
pub record Reassessment : Type 0 where
  pub id : Uuid
  pub trigger : ReassessmentTrigger
  pub reference : Option Uuid

-- `a.attestation_kind='blocked' AND a.attestation_id=(...)`, the latest one of the checkpoint
unfoldable pub is_blocked_proof : Target → Uuid → List AttestationRow → AttestationRow → Bool
is_blocked_proof target reference attestations a =
    is_attestation_on target a
    && ((a.attestation_id == reference)
        && ((a.attestation_kind == blocked_kind)
            && (some a.attestation_id
                == attestation_id_of (latest (select (is_attestation_on target) attestations)))))

-- The test before 'blocked reassessment proof unavailable', and that before 'deadline ...'.
unfoldable pub proof_is_missing :
    Target → ReassessmentTrigger → Option Uuid → Date → List AttestationRow → CheckpointRow → Bool
proof_is_missing target blocked_attestation none today attestations c = true
proof_is_missing target blocked_attestation (some reference) today attestations c =
    (c.state != TimelineCheckpointState.blocked)
    || not (any (is_blocked_proof target reference attestations) attestations)
proof_is_missing target deadline_elapsed reference today attestations c =
    not (is_none reference)
    || ((c.state == TimelineCheckpointState.verified) || not (date_ltb c.due_date today))

abbrev reassessment_row :
    Caller → Request → Target → Reassessment → Date → ℕ → TimelineExecution → ReassessmentRow
reassessment_row caller request target r today now e = record {
  reassessment = record {
    reassessment_id = r.id;
    execution_id = target.execution_id;
    checkpoint_id = target.checkpoint_id;
    predecessor_case_id = e.case_id;
    predecessor_case_revision = e.case_revision;
    predecessor_decision_id = e.decision_id;
    predecessor_decision_receipt_id = e.decision_receipt_id;
    predecessor_timeline_plan_id = e.timeline_plan_id;
    predecessor_execution_id = target.execution_id;
    predecessor_checkpoint_id = target.checkpoint_id;
  };
  advisor_actor_id = caller.actor;
  trigger = r.trigger;
  trigger_reference_id = r.reference;
  observed_execution_version = target.execution_version;
  observed_checkpoint_version = target.checkpoint_version;
  request_sha256 = request.request_sha256;
  accepted_database_date = today;
  created_at = now;
}

unfoldable pub reassess_writes :
    Caller → Request → Target → Reassessment → Date → ℕ → Timeline → TimelineExecution → Timeline
reassess_writes caller request target r today now t e = record t {
  execution = some (next_version TimelineExecutionState.reassessment_required now e);
  reassessments = reassessment_row caller request target r today now e ∷ t.reassessments;
}

-- On the current checkpoint.
unfoldable pub reassess_on :
    Caller
    → Request
    → Target
    → Reassessment
    → Date
    → ℕ
    → Timeline
    → TimelineExecution
    → CheckpointRow
    → Result Outcome
reassess_on caller request target r today now t e c =
    if not (any (is_participant e.case_id caller.actor "advisor") t.participants)
    then err "NV026"
    else if proof_is_missing target r.trigger r.reference today t.attestations c
    then err "NV026"
    else ok (
        recorded "reassess" "timeline_reassessment_request" "timeline_reassessment_requested" r.id 0
          caller request target now (reassess_writes caller request target r today now t e))

-- `request_timeline_reassessment`
unfoldable pub request_timeline_reassessment :
    Caller → Request → Target → Reassessment → Date → ℕ → Timeline → Result Outcome
request_timeline_reassessment caller request target r today now t =
    if (caller.role != "advisor") || (is_target_invalid target || is_request_invalid request)
    then err "NV006"
    else on_current "timeline_reassessment_request" "timeline_reassessment_requested" caller request
        target t (reassess_on caller request target r today now t)
