-- ===== src/TimelineExecution/Policy.antt =====
-- timeline_execution/policy.py.
use night_voyager.TimelineExecution.Enums.{
  timeline_execution_state_eq, TimelineCheckpointState, timeline_checkpoint_state_eq,
  TimelineRiskState, on_track, due_soon, overdue, timeline_risk_state_eq, CheckpointAttestationKind,
  progress, completion, blocked_kind, checkpoint_attestation_kind_eq, CheckpointStatusCode,
  work_in_progress, ready_for_advisor, work_blocked, checkpoint_status_code_eq,
  CheckpointAttestationReasonCode, not_applicable, checkpoint_attestation_reason_code_eq,
  CheckpointVerificationAction, verify, request_update, CheckpointVerificationReasonCode,
  attestation_verified, status_update_required, status_inconsistent,
  checkpoint_verification_reason_code_eq,
}
use Prim.Native.String.{◌++◌ as str_append}
use night_voyager.Base.{
  ltb, leb, if◌then◌else◌, ◌==◌, ◌!=◌, nat_eq, string_eq, option_eq, contains, list_eq, ℕ, suc, ◌-◌,
  String, not, ◌||◌, List, [], ◌∷◌, map,
}
use night_voyager.Base.Results.{Result, ok, err, ◌>>=◌}
use night_voyager.Calendar.{Date, date_eq, ordinal}
use night_voyager.Decision.Models.{
  review_action_eq, decision_source_eq, TimelineMilestone, TimelinePlan,
}
use night_voyager.TimelineExecution.Models.{
  CheckpointSeed, timeline_checkpoint_eq, timeline_activity_item_eq,
}

abbrev pub milestones_order : List String
milestones_order = "documents" ∷ "application" ∷ "visa" ∷ "arrival" ∷ []

-- `ACCOUNTABLE_ROLES[index - 1]`
abbrev pub accountable_role_at : ℕ → Result String
accountable_role_at index =
    if (index == 1) || ((index == 2) || (index == 3))
    then ok "student"
    else if index == 4
    then ok "parent"
    else err "tuple index out of range"

-- The generator over `enumerate(plan.milestones, start=index)`.
abbrev pub seeds_from : ℕ → List TimelineMilestone → Result (List CheckpointSeed)
seeds_from index [] = ok []
seeds_from index (m ∷ ms) = do
  role ← accountable_role_at index
  rest ← seeds_from (suc index) ms
  ok (
      record {
        ordinal = index;
        milestone_key = m.key;
        due_date = m.due_date;
        accountable_role = role;
      }
      ∷ rest)

unfoldable pub snapshot_timeline_plan : TimelinePlan → Result (List CheckpointSeed)
snapshot_timeline_plan plan =
    if map TimelineMilestone.key plan.milestones != milestones_order
    then err "timeline milestones must match canonical order"
    else seeds_from 1 plan.milestones

-- `remaining = (due_date - observed_date).days` is below 0 if the due date's ordinal is the lesser,
-- and else the difference.
unfoldable pub derive_risk_state : TimelineCheckpointState → Date → Date → TimelineRiskState
derive_risk_state checkpoint_state due_date observed_date =
    if checkpoint_state == TimelineCheckpointState.verified
    then on_track
    else if ltb (ordinal due_date) (ordinal observed_date)
    then overdue
    else if leb (ordinal due_date - ordinal observed_date) 14
    then due_soon
    else on_track

abbrev exact_status : CheckpointAttestationKind → CheckpointStatusCode
exact_status progress = work_in_progress
exact_status completion = ready_for_advisor
exact_status blocked_kind = work_blocked

unfoldable pub validate_attestation_codes :
    String
    → CheckpointAttestationKind
    → CheckpointStatusCode
    → String
    → CheckpointAttestationReasonCode
    → Result (Unit {0})
validate_attestation_codes milestone_key kind status_code attestation_code reason_code =
    if not (contains milestone_key milestones_order)
      || (attestation_code != str_append milestone_key "_status_confirmed")
    then err "attestation code must match milestone"
    else if status_code != exact_status kind
    then err "status code must match attestation kind"
    else if kind == blocked_kind
    then if reason_code == not_applicable
      then err "blocked attestation requires a reason"
      else ok tt
    else if reason_code != not_applicable
    then err "non-blocked attestation uses not_applicable"
    else ok tt

abbrev reasons_of : CheckpointVerificationAction → List CheckpointVerificationReasonCode
reasons_of verify = attestation_verified ∷ []
reasons_of request_update = status_update_required ∷ status_inconsistent ∷ []

unfoldable pub validate_verification_codes :
    CheckpointVerificationAction → CheckpointVerificationReasonCode → Result (Unit {0})
validate_verification_codes action reason_code =
    if not (contains reason_code (reasons_of action))
    then err "verification reason must match action"
    else ok tt
