-- ===== src/TimelineAuthority/Read.antt =====
-- `read_timeline_execution`: the execution, its checkpoints and the current action. The case has the
-- execution of this timeline or none. The activity, the latest attestation and verification and the
-- reassessment, which it reads as they are, are left.
use night_voyager.Base.{
  ltb, leb, if◌then◌else◌, ◌==◌, ◌!=◌, nat_eq, string_eq, option_eq, length, any, select, list_eq,
  ℕ, ◌-◌, String, Bool, false, not, ◌&&◌, ◌||◌, Option, none, some, List, [], ◌∷◌, map,
}
use night_voyager.Base.Results.{Result, ok, err}
use night_voyager.Calendar.{Date, date_eq, date_ltb, ordinal}
use night_voyager.Planning.Models.{Uuid}
use night_voyager.TimelineExecution.Enums.{
  TimelineExecutionState, timeline_execution_state_eq, TimelineCheckpointState,
  timeline_checkpoint_state_eq, TimelineRiskState, on_track, due_soon, overdue,
  timeline_risk_state_eq, checkpoint_attestation_kind_eq, checkpoint_status_code_eq,
  checkpoint_attestation_reason_code_eq, checkpoint_verification_reason_code_eq,
  TimelineCurrentActionCode, checkpoint_attestation_required, advisor_verification_required,
  execution_completed, reassessment_handoff_required,
}
use night_voyager.TimelineExecution.Models.{
  TimelineExecution, TimelineCheckpoint, timeline_checkpoint_eq, TimelineCurrentAction,
  timeline_activity_item_eq,
}
use night_voyager.TimelineAuthority.Rows.{
  CheckpointRow, ParticipantRow, Timeline, Caller, has_context, is_participant,
}
use night_voyager.TimelineAuthority.Gate.{is_open_row}

-- `'risk_state',CASE ... END`; the difference of two dates is a number of days
unfoldable pub risk_state_of : Date → CheckpointRow → TimelineRiskState
risk_state_of today c =
    if c.state == TimelineCheckpointState.verified
    then on_track
    else if date_ltb c.due_date today
    then overdue
    else if leb (ordinal today) (ordinal c.due_date) && leb (ordinal c.due_date - ordinal today) 14
    then due_soon
    else on_track

-- `jsonb_build_object` of a checkpoint, with the risk that is given
abbrev pub shown_with : (CheckpointRow → TimelineRiskState) → CheckpointRow → TimelineCheckpoint
shown_with risk c = record {
  checkpoint_id = c.id;
  execution_id = c.execution_id;
  ordinal = c.ordinal;
  milestone_key = c.milestone_key;
  due_date = c.due_date;
  accountable_role = c.accountable_role;
  state = c.state;
  risk_state = risk c;
  row_version = c.row_version;
  created_at = c.created_at;
  updated_at = c.updated_at;
}

-- `(array_agg(...))[1]`
abbrev pub first_shown : List TimelineCheckpoint → Option TimelineCheckpoint
first_shown [] = none
first_shown (c ∷ _) = some c

-- The test before 'timeline projection contradictory', on the number of current checkpoints.
unfoldable pub is_contradictory : TimelineExecutionState → ℕ → Bool
is_contradictory TimelineExecutionState.active count = count != 1
is_contradictory TimelineExecutionState.completed count = count != 0
is_contradictory TimelineExecutionState.reassessment_required count = ltb 1 count

abbrev pub version_of : Option TimelineCheckpoint → Option ℕ
version_of none = none
version_of (some c) = some c.row_version

abbrev pub id_of : Option TimelineCheckpoint → Option Uuid
id_of none = none
id_of (some c) = some c.checkpoint_id

abbrev role_shown : Option TimelineCheckpoint → String
role_shown none = ""
role_shown (some c) = c.accountable_role

abbrev is_in_state : TimelineCheckpointState → Option TimelineCheckpoint → Bool
is_in_state state none = false
is_in_state state (some c) = c.state == state

abbrev action_row :
    TimelineCurrentActionCode
    → String
    → TimelineExecution
    → Option TimelineCheckpoint
    → TimelineCurrentAction
action_row code owner e current = record {
  code = code;
  owner_role = owner;
  checkpoint_id = id_of current;
  execution_version = e.row_version;
  checkpoint_version = version_of current;
}

-- `v_current_action`
unfoldable pub current_action :
    TimelineExecution → Option TimelineCheckpoint → TimelineCurrentAction
current_action e current =
    if e.state == TimelineExecutionState.completed
    then action_row execution_completed "none" e none
    else if e.state == TimelineExecutionState.reassessment_required
    then action_row reassessment_handoff_required "advisor" e current
    else if is_in_state TimelineCheckpointState.awaiting_advisor current
    then action_row advisor_verification_required "advisor" e current
    else if is_in_state TimelineCheckpointState.blocked current
    then action_row reassessment_handoff_required "advisor" e current
    else action_row checkpoint_attestation_required (role_shown current) e current

pub record Projection : Type 0 where
  pub execution : TimelineExecution
  pub checkpoints : List TimelineCheckpoint
  pub current_checkpoint : Option TimelineCheckpoint
  pub action : TimelineCurrentAction

unfoldable pub projection : Date → TimelineExecution → List CheckpointRow → Projection
projection today e checkpoints =
    let current =
      first_shown (map (shown_with (risk_state_of today)) (select is_open_row checkpoints)) in
    record {
      execution = e;
      checkpoints = map (shown_with (risk_state_of today)) checkpoints;
      current_checkpoint = current;
      action = current_action e current;
    }

unfoldable pub projected :
    Date → List CheckpointRow → Option TimelineExecution → Result (Option Projection)
projected today checkpoints none = ok none
projected today checkpoints (some e) =
    if is_contradictory e.state (length (select is_open_row checkpoints))
    then err "NV006"
    else ok (some (projection today e checkpoints))

-- The execution of the case, if the actor takes part in it in the role.
unfoldable pub visible :
    Caller → Uuid → List ParticipantRow → Option TimelineExecution → Option TimelineExecution
visible caller case_id participants none = none
visible caller case_id participants (some e) =
    if (e.case_id == case_id)
      && any (is_participant e.case_id caller.actor caller.role) participants
    then some e
    else none

-- `read_timeline_execution`
unfoldable pub read_timeline_execution :
    Caller → Uuid → Date → Timeline → Result (Option Projection)
read_timeline_execution caller case_id today t =
    if not ((caller.role == "advisor") || ((caller.role == "student") || (caller.role == "parent")))
    then err "NV003"
    else if not (has_context caller)
    then err "NV007"
    else projected today t.checkpoints (visible caller case_id t.participants t.execution)
