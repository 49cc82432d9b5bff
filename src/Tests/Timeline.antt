-- ===== src/Tests/Timeline.antt =====
-- An execution whose first checkpoint waits for the advisor.
use night_voyager.TimelineExecution.Enums.{
  TimelineExecutionState, TimelineCheckpointState, due_soon, overdue, advisor_verification_required,
}
use night_voyager.Base.{ℕ, ◌+◌, ◌≤◌, String, ◌≡◌, refl, ◌≢◌, ◌↔◌, true, false, none, some, [], ◌∷◌}
use night_voyager.Base.Results.{ok}
use night_voyager.Base.Int.{pos}
use night_voyager.Calendar.{Date, make_date, date_ltb, ordinal}
use night_voyager.Calendar.Ordinal.{IsDate}
use night_voyager.TimelineExecution.Models.{
  TimelineCheckpoint, TimelineCurrentAction, TimelineActivityItem, TimelineExecutionView,
}
use night_voyager.TimelineExecution.Policy.{derive_risk_state}
use night_voyager.TimelineExecution.Risk.{derive_risk_state_lem}
use night_voyager.TimelineExecution.Action.{checkpoint_action, active_action, derive_current_action}
use night_voyager.TimelineExecution.Owner.{IsActionOn, derive_current_action-IsActionOn}

abbrev due : Date
due = record { year = 2026; month = 9; day = 1 }

abbrev observed : Date
observed = record { year = 2026; month = 8; day = 25 }

due-IsDate : IsDate due
unfolding make_date
due-IsDate = refl

observed-IsDate : IsDate observed
unfolding make_date
observed-IsDate = refl

derive_risk_state_lem_example :
    ((derive_risk_state TimelineCheckpointState.pending due observed ≡ overdue) ↔ (
      (TimelineCheckpointState.pending ≢ TimelineCheckpointState.verified)
      × (date_ltb due observed ≡ true)))
    × ((derive_risk_state TimelineCheckpointState.pending due observed ≡ due_soon) ↔ (
        (TimelineCheckpointState.pending ≢ TimelineCheckpointState.verified)
        × (date_ltb due observed ≡ false)
        × (ordinal due ≤ ordinal observed + 14)))
derive_risk_state_lem_example =
    derive_risk_state_lem TimelineCheckpointState.pending due observed due-IsDate observed-IsDate

abbrev checkpoint : ℕ → String → TimelineCheckpointState → TimelineCheckpoint
checkpoint n key state = record {
  checkpoint_id = 900 + n;
  execution_id = 890;
  ordinal = n;
  milestone_key = key;
  due_date = due;
  accountable_role = "student";
  state = state;
  risk_state = due_soon;
  row_version = 3;
  created_at = 1;
  updated_at = 2;
}

abbrev waiting : TimelineCheckpoint
waiting = checkpoint 1 "documents" TimelineCheckpointState.awaiting_advisor

abbrev view : TimelineExecutionView
view = record {
  execution = record {
    execution_id = 890;
    case_id = 40;
    case_revision = 1;
    decision_id = 810;
    decision_receipt_id = 811;
    timeline_plan_id = 812;
    state = TimelineExecutionState.active;
    row_version = 5;
    created_at = 1;
    updated_at = 2;
  };
  checkpoints = waiting ∷ checkpoint 2 "application" TimelineCheckpointState.pending ∷ [];
  current_checkpoint = some waiting;
  reassessment = none;
  activity = [];
  activity_total = pos 0;
  activity_truncated = false;
}

abbrev action : TimelineCurrentAction
action = record {
  code = advisor_verification_required;
  owner_role = "advisor";
  checkpoint_id = some 901;
  execution_version = 5;
  checkpoint_version = some 3;
}

action_derived : derive_current_action view ≡ ok action
unfolding derive_current_action active_action checkpoint_action
action_derived = refl

derive_current_action-IsActionOn_example : (c : TimelineCheckpoint) × IsActionOn view c action
derive_current_action-IsActionOn_example = derive_current_action-IsActionOn view refl action_derived

abbrev activity_at : ℕ → ℕ → TimelineActivityItem
activity_at moment id = record {
  durable_id = id;
  execution_id = 890;
  checkpoint_id = some 901;
  created_at = moment;
}

-- The view with two items, of one moment and an earlier one, of three.
abbrev busy : TimelineExecutionView
busy = record {
  execution = view.execution;
  checkpoints = view.checkpoints;
  current_checkpoint = some waiting;
  reassessment = none;
  activity = activity_at 9 71 ∷ activity_at 9 70 ∷ activity_at 4 72 ∷ [];
  activity_total = pos 5;
  activity_truncated = true;
}
