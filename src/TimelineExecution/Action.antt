-- ===== src/TimelineExecution/Action.antt =====
-- `derive_current_action` of timeline_execution/policy.py and the checks that
-- `TimelineExecutionViewV1` makes of a view.
use night_voyager.TimelineExecution.Enums.{
  TimelineExecutionState, timeline_execution_state_eq, TimelineCheckpointState,
  timeline_checkpoint_state_eq, timeline_risk_state_eq, checkpoint_attestation_kind_eq,
  checkpoint_status_code_eq, checkpoint_attestation_reason_code_eq,
  checkpoint_verification_reason_code_eq, TimelineCurrentActionCode,
  checkpoint_attestation_required, advisor_verification_required, execution_completed,
  reassessment_handoff_required,
}
use mathlib.Core.Option
use night_voyager.Base.{
  if◌then◌else◌, is_none, ◌==◌, ◌!=◌, nat_eq, string_eq, option_eq, select, contains, list_eq,
  String, Bool, not, Option, none, some, List, [], ◌∷◌,
}
use night_voyager.Base.Results.{Result, ok, err}
use night_voyager.Calendar.{date_eq}
use night_voyager.TimelineExecution.Models.{
  TimelineExecution, TimelineCheckpoint, timeline_checkpoint_eq, TimelineCurrentAction,
  timeline_activity_item_eq, TimelineExecutionView,
}

-- `checkpoint.state in {IN_PROGRESS, AWAITING_ADVISOR, BLOCKED}`
abbrev pub is_current : TimelineCheckpoint → Bool
is_current checkpoint = contains checkpoint.state (
    TimelineCheckpointState.in_progress ∷ TimelineCheckpointState.awaiting_advisor
    ∷ TimelineCheckpointState.blocked ∷ [])

-- The action on the one current checkpoint of an active execution.
abbrev action_on :
    TimelineExecution
    → TimelineCheckpoint
    → TimelineCurrentActionCode
    → String
    → TimelineCurrentAction
action_on execution checkpoint code owner = record {
  code = code;
  owner_role = owner;
  checkpoint_id = some checkpoint.checkpoint_id;
  execution_version = execution.row_version;
  checkpoint_version = some checkpoint.row_version;
}

unfoldable pub checkpoint_action : TimelineExecution → TimelineCheckpoint → TimelineCurrentAction
checkpoint_action execution checkpoint =
    if checkpoint.state == TimelineCheckpointState.awaiting_advisor
    then action_on execution checkpoint advisor_verification_required "advisor"
    else if checkpoint.state == TimelineCheckpointState.blocked
    then action_on execution checkpoint reassessment_handoff_required "advisor"
    else action_on execution checkpoint checkpoint_attestation_required checkpoint.accountable_role

-- `current` and the checkpoint that the view names.
unfoldable pub active_action :
    TimelineExecution
    → List TimelineCheckpoint
    → Option TimelineCheckpoint
    → Result TimelineCurrentAction
active_action execution (checkpoint ∷ []) named =
    if named != some checkpoint
    then err "active execution must have one current checkpoint"
    else ok (checkpoint_action execution checkpoint)
active_action execution _ named = err "active execution must have one current checkpoint"

unfoldable pub derive_current_action : TimelineExecutionView → Result TimelineCurrentAction
derive_current_action view =
    if view.execution.state == TimelineExecutionState.completed
    then if not (is_none view.current_checkpoint)
      then err "completed execution has no current checkpoint"
      else ok (record {
        code = execution_completed;
        owner_role = "none";
        checkpoint_id = none;
        execution_version = view.execution.row_version;
        checkpoint_version = none;
      })
    else if view.execution.state == TimelineExecutionState.reassessment_required
    then ok (record {
      code = reassessment_handoff_required;
      owner_role = "advisor";
      checkpoint_id = Option.map TimelineCheckpoint.checkpoint_id view.current_checkpoint;
      execution_version = view.execution.row_version;
      checkpoint_version = Option.map TimelineCheckpoint.row_version view.current_checkpoint;
    })
    else active_action view.execution (select is_current view.checkpoints) view.current_checkpoint
