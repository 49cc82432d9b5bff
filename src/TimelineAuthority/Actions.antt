-- ===== src/TimelineAuthority/Actions.antt =====
-- The risks and the current action, as the reader and as timeline_execution/policy.py find them.
use mathlib.Core.Option
use night_voyager.Base.{
  nat_eq, string_eq, beq_refl, option_eq, select, All, list_eq, ◌≡◌, refl, sym, ap, ◌∙◌, ◌≢◌, ◌⊎◌,
  inl, inr, true, Option, none, some, List, [], ◌∷◌, map, arith,
}
use night_voyager.Base.Results.{ok}
use night_voyager.Calendar.{Date, date_eq}
use night_voyager.Calendar.Ordinal.{IsDate, ordinal_iff}
use night_voyager.TimelineExecution.Enums.{
  TimelineExecutionState, timeline_execution_state_eq, timeline_checkpoint_state_eq,
  TimelineRiskState, timeline_risk_state_eq, checkpoint_attestation_kind_eq,
  checkpoint_status_code_eq, checkpoint_attestation_reason_code_eq,
  checkpoint_verification_reason_code_eq,
}
use night_voyager.TimelineExecution.Models.{
  TimelineExecution, TimelineCheckpoint, timeline_checkpoint_eq, timeline_activity_item_eq,
  TimelineExecutionView,
}
use night_voyager.TimelineExecution.Policy.{derive_risk_state}
use night_voyager.TimelineExecution.Action.{
  is_current, checkpoint_action, active_action, derive_current_action,
}
use night_voyager.TimelineExecution.Owner.{derive-active}
use night_voyager.TimelineAuthority.Rows.{CheckpointRow}
use night_voyager.TimelineAuthority.Gate.{is_open_state, is_open_row}
use night_voyager.TimelineAuthority.Lines.{IsVerified}
use night_voyager.TimelineAuthority.Read.{
  risk_state_of, shown_with, version_of, id_of, current_action, Projection,
}

-- The risk by the policy.
abbrev pub policy_risk : Date → CheckpointRow → TimelineRiskState
policy_risk today c = derive_risk_state c.state c.due_date today

risk_state_of-policy :
    (today : Date) (c : CheckpointRow)
    → IsDate today
    → IsDate c.due_date
    → risk_state_of today c ≡ policy_risk today c
unfolding risk_state_of derive_risk_state
risk_state_of-policy today c now due = ground (arith, ordinal_iff c.due_date today due now)

pub shown-policy :
    (today : Date) (cs : List CheckpointRow)
    → IsDate today
    → All (λ c. IsDate c.due_date) cs
    → map (shown_with (risk_state_of today)) cs ≡ map (shown_with (policy_risk today)) cs
shown-policy today [] now due = refl
shown-policy today (c ∷ cs) now (here, due) =
    ground (arith, risk_state_of-policy today c now here, shown-policy today cs now due)

-- The two tests for a current checkpoint.
pub is_current-open :
    (risk : CheckpointRow → TimelineRiskState) (c : CheckpointRow)
    → is_current (shown_with risk c) ≡ is_open_row c
unfolding is_open_state
is_current-open risk c = ground arith

pub select-shown :
    (risk : CheckpointRow → TimelineRiskState) (cs : List CheckpointRow)
    → select is_current (map (shown_with risk) cs) ≡ map (shown_with risk) (select is_open_row cs)
select-shown risk [] = refl
select-shown risk (c ∷ cs) = ground (arith, is_current-open risk c, select-shown risk cs)

pub select-verified : (cs : List CheckpointRow) → All IsVerified cs → select is_open_row cs ≡ []
unfolding is_open_state
select-verified [] done = refl
select-verified (c ∷ cs) (here, done) = ground (arith, here, select-verified cs done)

-- What is read agrees with the policy on it.
pub record Agrees (today : Date) (checkpoints : List CheckpointRow) (r : Projection) : Type 0 where
  pub risks : r.checkpoints ≡ map (shown_with (policy_risk today)) checkpoints
  pub action :
      (view : TimelineExecutionView)
      → view.execution ≡ r.execution
      → view.checkpoints ≡ r.checkpoints
      → view.current_checkpoint ≡ r.current_checkpoint
      → derive_current_action view ≡ ok r.action

-- The policy's action, from the parts of a view.
derive-parts :
    (view : TimelineExecutionView) (e : TimelineExecution) (cs : List TimelineCheckpoint)
    (current : Option TimelineCheckpoint)
    → view.execution ≡ e
    → view.checkpoints ≡ cs
    → view.current_checkpoint ≡ current
    → derive_current_action view
      ≡ derive_current_action
          (record view { execution = e; checkpoints = cs; current_checkpoint = current })
unfolding derive_current_action
derive-parts view e cs current same_e same_cs same_current = rw (same_e, same_cs, same_current) refl

active_action-current :
    (e : TimelineExecution) (c : TimelineCheckpoint)
    → e.state ≡ TimelineExecutionState.active
    → is_current c ≡ true
    → active_action e (c ∷ []) (some c) ≡ ok (current_action e (some c))
unfolding active_action current_action checkpoint_action
active_action-current e c here opened_here = ground (arith, here, opened_here, beq_refl c)

id_of-map :
    (c : Option TimelineCheckpoint) → Option.map TimelineCheckpoint.checkpoint_id c ≡ id_of c
id_of-map none = refl
id_of-map (some c) = refl

version_of-map :
    (c : Option TimelineCheckpoint) → Option.map TimelineCheckpoint.row_version c ≡ version_of c
version_of-map none = refl
version_of-map (some c) = refl

derive-handed :
    (view : TimelineExecutionView)
    → view.execution.state ≡ TimelineExecutionState.reassessment_required
    → derive_current_action view ≡ ok (current_action view.execution view.current_checkpoint)
unfolding derive_current_action current_action
derive-handed view h =
    ground (arith, id_of-map view.current_checkpoint, version_of-map view.current_checkpoint)

pub derive-completed :
    (view : TimelineExecutionView)
    → view.execution.state ≡ TimelineExecutionState.completed
    → view.current_checkpoint ≡ none
    → derive_current_action view ≡ ok (current_action view.execution none)
unfolding derive_current_action current_action
derive-completed view h k = ground arith

states :
    (s : TimelineExecutionState)
    → s ≢ TimelineExecutionState.completed
    → (s ≡ TimelineExecutionState.active) ⊎ (s ≡ TimelineExecutionState.reassessment_required)
states s h = ground (arith, h)

-- The one current checkpoint `c` of a view is what both name.
pub derive-line :
    (view : TimelineExecutionView) (c : TimelineCheckpoint)
    → view.execution.state ≢ TimelineExecutionState.completed
    → select is_current view.checkpoints ≡ c ∷ []
    → view.current_checkpoint ≡ some c
    → is_current c ≡ true
    → derive_current_action view ≡ ok (current_action view.execution view.current_checkpoint)
derive-line view c live sole named opened_here = elim (states view.execution.state live) [
  | inl here ↦
      derive-active view here
      ∙ ap (λ cs. active_action view.execution cs view.current_checkpoint) sole
      ∙ ap (active_action view.execution (c ∷ [])) named
      ∙ active_action-current view.execution c here opened_here
      ∙ ap (λ x. ok (current_action view.execution x)) (sym named)
  | inr handed ↦ derive-handed view handed
]
