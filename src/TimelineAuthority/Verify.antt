-- ===== src/TimelineAuthority/Verify.antt =====
-- `verify_timeline_checkpoint`.
use night_voyager.Base.{
  ltb, if◌then◌else◌, ◌==◌, ◌!=◌, nat_eq, string_eq, option_eq, any, select, contains, list_eq, ℕ,
  ◌+◌, Bool, not, ◌&&◌, ◌||◌, Option, none, some, List, [], ◌∷◌, map,
}
use night_voyager.Base.Results.{Result, ok, err}
use night_voyager.Calendar.{date_eq, ordinal}
use night_voyager.Planning.Models.{Uuid}
use night_voyager.TimelineExecution.Enums.{
  TimelineExecutionState, timeline_execution_state_eq, TimelineCheckpointState,
  timeline_checkpoint_state_eq, timeline_risk_state_eq, completion, checkpoint_attestation_kind_eq,
  checkpoint_status_code_eq, checkpoint_attestation_reason_code_eq, CheckpointVerificationAction,
  verify, request_update, CheckpointVerificationReasonCode, attestation_verified,
  status_update_required, status_inconsistent, checkpoint_verification_reason_code_eq,
}
use night_voyager.TimelineExecution.Models.{
  TimelineExecution, timeline_checkpoint_eq, timeline_activity_item_eq,
}
use night_voyager.TimelineAuthority.Rows.{
  CheckpointRow, AttestationRow, VerificationRow, Timeline, Caller, Request, Target, is_participant,
}
use night_voyager.TimelineAuthority.Gate.{
  Outcome, is_request_invalid, is_target_invalid, on_current,
}
use night_voyager.TimelineAuthority.Writes.{update_checkpoint, next_version, recorded}

-- The parameters of a verification.
pub record Verification : Type 0 where
  pub id : Uuid
  pub attestation : Uuid
  pub action : CheckpointVerificationAction
  pub reason : CheckpointVerificationReasonCode

-- `ORDER BY created_at DESC,attestation_id DESC LIMIT 1`
unfoldable pub later_of : AttestationRow → Option AttestationRow → Option AttestationRow
later_of a none = some a
later_of a (some b) =
    if ltb b.created_at a.created_at
      || ((b.created_at == a.created_at) && ltb b.attestation_id a.attestation_id)
    then some a
    else some b

unfoldable pub latest : List AttestationRow → Option AttestationRow
latest [] = none
latest (a ∷ rest) = later_of a (latest rest)

abbrev pub attestation_id_of : Option AttestationRow → Option Uuid
attestation_id_of none = none
attestation_id_of (some a) = some a.attestation_id

unfoldable pub is_attestation_on : Target → AttestationRow → Bool
is_attestation_on target a =
    (a.execution_id == target.execution_id) && (a.checkpoint_id == target.checkpoint_id)

unfoldable pub is_completion_on : Target → AttestationRow → Bool
is_completion_on target a = is_attestation_on target a && (a.attestation_kind == completion)

-- `(p_action='verify' AND ...) OR (p_action='request_update' AND ...)`
unfoldable pub reason_conflicts :
    CheckpointVerificationAction → CheckpointVerificationReasonCode → Bool
reason_conflicts verify reason = reason != attestation_verified
reason_conflicts request_update reason =
    not (contains reason (status_update_required ∷ status_inconsistent ∷ []))

abbrev verification_row : Caller → Request → Target → Verification → ℕ → VerificationRow
verification_row caller request target v now = record {
  verification_id = v.id;
  execution_id = target.execution_id;
  checkpoint_id = target.checkpoint_id;
  attestation_id = v.attestation;
  advisor_actor_id = caller.actor;
  action = v.action;
  reason_code = v.reason;
  observed_execution_version = target.execution_version;
  observed_checkpoint_version = target.checkpoint_version;
  request_sha256 = request.request_sha256;
  created_at = now;
}

-- `SET state='in_progress'` after a request of an update
unfoldable pub returned_to_work : ℕ → CheckpointRow → CheckpointRow
returned_to_work now c = record c {
  state = TimelineCheckpointState.in_progress;
  row_version = c.row_version + 1;
  verified_at = none;
  updated_at = now;
}

-- `SET state='verified'`
unfoldable pub verified_at_now : ℕ → CheckpointRow → CheckpointRow
verified_at_now now c = record c {
  state = TimelineCheckpointState.verified;
  row_version = c.row_version + 1;
  verified_at = some now;
  updated_at = now;
}

-- `SET state='in_progress'` of the next checkpoint
unfoldable pub opened : ℕ → CheckpointRow → CheckpointRow
opened now c = record c {
  state = TimelineCheckpointState.in_progress;
  row_version = c.row_version + 1;
  updated_at = now;
}

-- `WHERE ordinal=v_checkpoint.ordinal+1 AND state='pending'`
unfoldable pub open_next : ℕ → ℕ → List CheckpointRow → List CheckpointRow
open_next ordinal now checkpoints =
    map
      (λ c.
        if (c.ordinal == ordinal + 1) && (c.state == TimelineCheckpointState.pending)
        then opened now c
        else c)
      checkpoints

-- The two `UPDATE`s after the verification is inserted; the last milestone completes the execution.
unfoldable pub update_requested : Target → ℕ → Timeline → TimelineExecution → Timeline
update_requested target now t e = record t {
  execution = some (next_version e.state now e);
  checkpoints = update_checkpoint target.checkpoint_id (returned_to_work now) t.checkpoints;
}

unfoldable pub completed_by : Target → ℕ → Timeline → TimelineExecution → Timeline
completed_by target now t e = record t {
  execution = some (next_version TimelineExecutionState.completed now e);
  checkpoints = update_checkpoint target.checkpoint_id (verified_at_now now) t.checkpoints;
}

unfoldable pub moved_on : Target → ℕ → ℕ → Timeline → TimelineExecution → Timeline
moved_on target ordinal now t e = record t {
  execution = some (next_version e.state now e);
  checkpoints =
      open_next ordinal now
        (update_checkpoint target.checkpoint_id (verified_at_now now) t.checkpoints);
}

unfoldable pub verify_writes :
    CheckpointVerificationAction
    → Target
    → ℕ
    → Timeline
    → TimelineExecution
    → CheckpointRow
    → Timeline
verify_writes request_update target now t e c = update_requested target now t e
verify_writes verify target now t e c =
    if c.milestone_key == "arrival"
    then completed_by target now t e
    else moved_on target c.ordinal now t e

-- On the current checkpoint.
unfoldable pub verify_on :
    Caller
    → Request
    → Target
    → Verification
    → ℕ
    → Timeline
    → TimelineExecution
    → CheckpointRow
    → Result Outcome
verify_on caller request target v now t e c =
    if (c.state != TimelineCheckpointState.awaiting_advisor)
      || ((attestation_id_of (latest (select (is_completion_on target) t.attestations))
            != some v.attestation)
          || (not (any (is_participant e.case_id caller.actor "advisor") t.participants)
              || reason_conflicts v.action v.reason))
    then err "NV025"
    else ok (
        recorded "verify" "timeline_checkpoint_verify" "timeline_checkpoint_verified" v.id 1 caller
          request target now
          (verify_writes v.action target now
            (record t {
              verifications = verification_row caller request target v now ∷ t.verifications;
            })
            e c))

-- `verify_timeline_checkpoint`
unfoldable pub verify_timeline_checkpoint :
    Caller → Request → Target → Verification → ℕ → Timeline → Result Outcome
verify_timeline_checkpoint caller request target v now t =
    if (caller.role != "advisor") || (is_target_invalid target || is_request_invalid request)
    then err "NV006"
    else on_current "timeline_checkpoint_verify" "timeline_checkpoint_verified" caller request
        target t (verify_on caller request target v now t)
