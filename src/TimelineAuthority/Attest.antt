-- ===== src/TimelineAuthority/Attest.antt =====
-- `attest_timeline_checkpoint`. The codes of a call are of the enumerations that
-- timeline_execution/models.py admits, so that the tests that a code is known are left.
use Prim.Native.String.{◌++◌ as str_append}
use night_voyager.Base.{
  if◌then◌else◌, ◌==◌, ◌!=◌, nat_eq, string_eq, option_eq, any, contains, list_eq, ℕ, ◌+◌, String,
  Bool, not, ◌&&◌, ◌||◌, some, [], ◌∷◌,
}
use night_voyager.Base.Results.{Result, ok, err}
use night_voyager.Calendar.{date_eq}
use night_voyager.Planning.Models.{Uuid}
use night_voyager.TimelineExecution.Enums.{
  timeline_execution_state_eq, TimelineCheckpointState, timeline_checkpoint_state_eq,
  timeline_risk_state_eq, CheckpointAttestationKind, progress, completion, blocked_kind,
  checkpoint_attestation_kind_eq, CheckpointStatusCode, work_in_progress, ready_for_advisor,
  work_blocked, checkpoint_status_code_eq, CheckpointAttestationReasonCode, not_applicable,
  missing_required_input, external_dependency_unavailable, deadline_at_risk,
  checkpoint_attestation_reason_code_eq, checkpoint_verification_reason_code_eq,
}
use night_voyager.TimelineExecution.Models.{
  TimelineExecution, timeline_checkpoint_eq, timeline_activity_item_eq,
}
use night_voyager.TimelineAuthority.Rows.{
  CheckpointRow, AttestationRow, Timeline, Caller, Request, Target, is_participant,
}
use night_voyager.TimelineAuthority.Gate.{
  Outcome, is_request_invalid, is_target_invalid, on_current,
}
use night_voyager.TimelineAuthority.Writes.{update_checkpoint, next_version, recorded}

-- The parameters of an attestation.
pub record Attestation : Type 0 where
  pub id : Uuid
  pub kind : CheckpointAttestationKind
  pub status : CheckpointStatusCode
  pub code : String
  pub reason : CheckpointAttestationReasonCode

-- The test before 'invalid checkpoint attestation codes'.
unfoldable pub codes_conflict : String → Attestation → Bool
codes_conflict milestone a =
    (a.code != str_append milestone "_status_confirmed")
    || (((a.kind == progress) && ((a.status != work_in_progress) || (a.reason != not_applicable)))
        || (((a.kind == completion)
              && ((a.status != ready_for_advisor) || (a.reason != not_applicable)))
            || ((a.kind == blocked_kind)
                && ((a.status != work_blocked)
                    || not (
                        contains a.reason (
                          missing_required_input ∷ external_dependency_unavailable
                          ∷ deadline_at_risk ∷ []))))))

-- `v_target_state`
unfoldable pub attested_state : CheckpointAttestationKind → TimelineCheckpointState
attested_state progress = TimelineCheckpointState.in_progress
attested_state completion = TimelineCheckpointState.awaiting_advisor
attested_state blocked_kind = TimelineCheckpointState.blocked

unfoldable pub attested : Attestation → ℕ → CheckpointRow → CheckpointRow
attested a now c = record c {
  state = attested_state a.kind;
  row_version = c.row_version + 1;
  attested_at = some now;
  updated_at = now;
}

abbrev attestation_row : Caller → Request → Target → Attestation → ℕ → AttestationRow
attestation_row caller request target a now = record {
  attestation_id = a.id;
  execution_id = target.execution_id;
  checkpoint_id = target.checkpoint_id;
  reporter_actor_id = caller.actor;
  reporter_role = caller.role;
  attestation_kind = a.kind;
  status_code = a.status;
  attestation_code = a.code;
  reason_code = a.reason;
  observed_execution_version = target.execution_version;
  observed_checkpoint_version = target.checkpoint_version;
  request_sha256 = request.request_sha256;
  created_at = now;
}

-- The writes on the checkpoints and the execution, and the attestation.
unfoldable pub attest_writes :
    Caller → Request → Target → Attestation → ℕ → Timeline → TimelineExecution → Timeline
attest_writes caller request target a now t e = record t {
  execution = some (next_version e.state now e);
  checkpoints = update_checkpoint target.checkpoint_id (attested a now) t.checkpoints;
  attestations = attestation_row caller request target a now ∷ t.attestations;
}

-- On the current checkpoint.
unfoldable pub attest_on :
    Caller
    → Request
    → Target
    → Attestation
    → ℕ
    → Timeline
    → TimelineExecution
    → CheckpointRow
    → Result Outcome
attest_on caller request target a now t e c =
    if (c.state != TimelineCheckpointState.in_progress)
      || ((c.accountable_role != caller.role)
          || not (any (is_participant e.case_id caller.actor caller.role) t.participants))
    then err "NV024"
    else if codes_conflict c.milestone_key a
    then err "NV024"
    else ok (
        recorded "attest" "timeline_checkpoint_attest" "timeline_checkpoint_attested" a.id 1 caller
          request target now (attest_writes caller request target a now t e))

-- `attest_timeline_checkpoint`
unfoldable pub attest_timeline_checkpoint :
    Caller → Request → Target → Attestation → ℕ → Timeline → Result Outcome
attest_timeline_checkpoint caller request target a now t =
    if not ((caller.role == "student") || (caller.role == "parent"))
      || (is_target_invalid target || is_request_invalid request)
    then err "NV006"
    else on_current "timeline_checkpoint_attest" "timeline_checkpoint_attested" caller request
        target t (attest_on caller request target a now t)
