-- ===== src/TimelineExecution/Owner.antt =====
-- Whose turn it is in an execution.
use night_voyager.TimelineExecution.Enums.{
  TimelineExecutionState, timeline_execution_state_eq, TimelineCheckpointState,
  timeline_checkpoint_state_eq, timeline_risk_state_eq, checkpoint_attestation_kind_eq,
  checkpoint_status_code_eq, checkpoint_attestation_reason_code_eq,
  checkpoint_verification_reason_code_eq,
}
use mathlib.Core.Path.{subst}
use night_voyager.Base.{
  Bool-cases, nat_eq, string_eq, option_beq_iff, option_eq, select, list_eq, ◌≡◌, refl, sym, ◌∙◌,
  ◌≢◌, ◌⊎◌, inl, inr, Bool, true, Option, some, List, [], ◌∷◌, arith,
}
use night_voyager.Base.Results.{ok}
use night_voyager.TimelineExecution.Models.{
  TimelineExecution, TimelineCheckpoint, timeline_checkpoint_eq, TimelineCurrentAction,
  timeline_activity_item_eq, TimelineExecutionView,
}
use night_voyager.TimelineExecution.Action.{
  is_current, checkpoint_action, active_action, derive_current_action,
}

-- The action on a current checkpoint, of the view's execution: the advisor's, unless the checkpoint
-- is in progress.
pub record IsActionOn (view : TimelineExecutionView) (c : TimelineCheckpoint)
    (action : TimelineCurrentAction) : Type 0 where
  pub sole : select is_current view.checkpoints ≡ (c ∷ [])
  pub named : view.current_checkpoint ≡ some c
  pub about : action.checkpoint_id ≡ some c.checkpoint_id
  pub checkpoint_version : action.checkpoint_version ≡ some c.row_version
  pub execution_version : action.execution_version ≡ view.execution.row_version
  pub owner :
      ((c.state ≡ TimelineCheckpointState.in_progress) × (action.owner_role ≡ c.accountable_role))
      ⊎ ((c.state ≢ TimelineCheckpointState.in_progress) × (action.owner_role ≡ "advisor"))

checkpoint_action-owner :
    (e : TimelineExecution) (c : TimelineCheckpoint)
    → is_current c ≡ true
    → ((c.state ≡ TimelineCheckpointState.in_progress)
        × ((checkpoint_action e c).owner_role ≡ c.accountable_role))
      ⊎ ((c.state ≢ TimelineCheckpointState.in_progress)
          × ((checkpoint_action e c).owner_role ≡ "advisor"))
unfolding checkpoint_action
checkpoint_action-owner e c h = ground arith

active_action-eq-ok :
    (e : TimelineExecution) (cs : List TimelineCheckpoint) (named : Option TimelineCheckpoint)
    → {action : TimelineCurrentAction} → active_action e cs named ≡ ok action
    → (c : TimelineCheckpoint) × (cs ≡ (c ∷ []))
      × (named ≡ some c)
      × (action ≡ checkpoint_action e c)
unfolding active_action
active_action-eq-ok e [] named h = absurd (ground arith)
active_action-eq-ok e (c ∷ d ∷ cs) named h = absurd (ground arith)
active_action-eq-ok e (c ∷ []) named h =
    (c, refl, ground (arith, option_beq_iff named (some c)), ground arith)

pub derive-active :
    (view : TimelineExecutionView)
    → view.execution.state ≡ TimelineExecutionState.active
    → derive_current_action view
      ≡ active_action view.execution (select is_current view.checkpoints) view.current_checkpoint
unfolding derive_current_action
derive-active view h = ground arith

pub select_all :
    {A : Type 0} (p : A → Bool) (xs : List A) {c : A} → select p xs ≡ (c ∷ []) → p c ≡ true
select_all p [] h = absurd (cc)
select_all p (x ∷ xs) {c} h = elim (Bool-cases (p x)) [
  | inl here ↦ subst (λ y. p y ≡ true) (ground arith) here
  | inr not_here ↦ select_all p xs (ground arith)
]

-- Where an active execution has an action, one checkpoint is current and the view names it, and the
-- action is on that checkpoint, with the versions that were read, and it is the advisor's
-- unless the checkpoint is in progress, when it is that of the accountable role.
pub derive_current_action-IsActionOn :
    (view : TimelineExecutionView) {action : TimelineCurrentAction}
    → view.execution.state ≡ TimelineExecutionState.active
    → derive_current_action view ≡ ok action
    → (c : TimelineCheckpoint) × IsActionOn view c action
unfolding checkpoint_action
derive_current_action-IsActionOn view {action} h done =
    let (c, sole, named, built) =
      active_action-eq-ok view.execution (select is_current view.checkpoints)
        view.current_checkpoint (sym (derive-active view h) ∙ done) in
    (
      c,
      record {
        sole = sole;
        named = named;
        about = ground (arith, built);
        checkpoint_version = ground (arith, built);
        execution_version = ground (arith, built);
        owner = ground (
          arith,
          built,
          checkpoint_action-owner view.execution c (select_all is_current view.checkpoints sole),
        );
      },
    )
