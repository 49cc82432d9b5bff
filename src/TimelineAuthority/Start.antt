-- ===== src/TimelineAuthority/Start.antt =====
-- `start_timeline_execution`. `ids` gives the id of each checkpoint, for `gen_random_uuid()`.
use night_voyager.Base.{
  if◌then◌else◌, is_none, ◌==◌, ◌!=◌, nat_eq, string_eq, option_eq, any, find_first, list_eq, ℕ,
  ◌+◌, String, Bool, not, ◌||◌, Option, none, some, List, [], ◌∷◌, map,
}
use night_voyager.Base.Results.{Result, ok, err}
use night_voyager.Calendar.{date_eq}
use night_voyager.Planning.Models.{Uuid}
use night_voyager.TimelineExecution.Enums.{
  TimelineExecutionState, timeline_execution_state_eq, TimelineCheckpointState,
  timeline_checkpoint_state_eq, timeline_risk_state_eq, checkpoint_attestation_kind_eq,
  checkpoint_status_code_eq, checkpoint_attestation_reason_code_eq,
  checkpoint_verification_reason_code_eq,
}
use night_voyager.TimelineExecution.Models.{
  TimelineExecution, timeline_checkpoint_eq, timeline_activity_item_eq,
}
use night_voyager.TimelineAuthority.Rows.{
  CheckpointRow, ReceiptRow, IdempotencyRow, Anchor, Timeline, Caller, Request, has_context,
  is_participant,
}
use night_voyager.TimelineAuthority.Gate.{Outcome, is_request_invalid, is_prior, repeated}
use night_voyager.Decision.Models.{review_action_eq, decision_source_eq, TimelineMilestone}
use night_voyager.TimelineExecution.Policy.{milestones_order}

-- A text of the milestones that is not an array of these two fields is not of the type.
unfoldable pub milestones_mismatch : List TimelineMilestone → Bool
milestones_mismatch milestones = map TimelineMilestone.key milestones != milestones_order

-- `CASE WHEN ordinality=4 THEN 'parent' ELSE 'student' END`
abbrev role_at : ℕ → String
role_at ordinality = if ordinality == 4 then "parent" else "student"

-- `CASE WHEN ordinality=1 THEN 'in_progress' ELSE 'pending' END`
abbrev state_at : ℕ → TimelineCheckpointState
state_at ordinality =
    if ordinality == 1 then TimelineCheckpointState.in_progress else TimelineCheckpointState.pending

unfoldable pub checkpoint_at : (ℕ → Uuid) → Uuid → ℕ → ℕ → TimelineMilestone → CheckpointRow
checkpoint_at ids execution now ordinality m = record {
  id = ids ordinality;
  execution_id = execution;
  ordinal = ordinality;
  milestone_key = m.key;
  due_date = m.due_date;
  accountable_role = role_at ordinality;
  state = state_at ordinality;
  row_version = 1;
  attested_at = none;
  verified_at = none;
  created_at = now;
  updated_at = now;
}

-- `jsonb_array_elements(v_milestones) WITH ORDINALITY`
unfoldable pub checkpoints_from :
    (ℕ → Uuid) → Uuid → ℕ → ℕ → List TimelineMilestone → List CheckpointRow
checkpoints_from ids execution now ordinality [] = []
checkpoints_from ids execution now ordinality (m ∷ ms) =
    checkpoint_at ids execution now ordinality m
    ∷ checkpoints_from ids execution now (ordinality + 1) ms

abbrev pub execution_row : Anchor → Uuid → ℕ → TimelineExecution
execution_row a execution now = record {
  execution_id = execution;
  case_id = a.case_id;
  case_revision = a.current_revision;
  decision_id = a.decision_id;
  decision_receipt_id = a.receipt_id;
  timeline_plan_id = a.timeline_id;
  state = TimelineExecutionState.active;
  row_version = 1;
  created_at = now;
  updated_at = now;
}

abbrev pub start_receipt : Caller → Request → Uuid → ℕ → ReceiptRow
start_receipt caller request execution now = record {
  receipt_id = request.receipt;
  actor_id = caller.actor;
  operation = "start";
  key_sha256 = request.key_sha256;
  request_sha256 = request.request_sha256;
  result_kind = "timeline_execution_started";
  result_id = execution;
  execution_id = execution;
  checkpoint_id = none;
  before_execution_version = none;
  after_execution_version = 1;
  before_checkpoint_version = none;
  after_checkpoint_version = none;
  created_at = now;
}

-- The four `INSERT`s.
unfoldable pub begun_with : Caller → Request → Uuid → (ℕ → Uuid) → ℕ → Timeline → Timeline
begun_with caller request execution ids now t = record t {
  execution = some (execution_row t.anchor execution now);
  checkpoints = checkpoints_from ids execution now 1 t.anchor.milestones;
  receipts = start_receipt caller request execution now ∷ t.receipts;
  idempotency =
      record {
        actor_id = caller.actor;
        operation = "timeline_execution_start";
        key_sha256 = request.key_sha256;
        request_sha256 = request.request_sha256;
        response_kind = "timeline_execution_started";
        response_id = request.receipt;
        created_at = now;
      }
      ∷ t.idempotency;
}

-- A repeated start fails where its receipt is gone.
unfoldable pub start_repeated : Result Outcome → Result Outcome
start_repeated (ok (t, none)) = err "NV006"
start_repeated r = r

unfoldable pub start_new :
    Caller → Request → Uuid → Uuid → ℕ → Uuid → (ℕ → Uuid) → ℕ → Timeline → Result Outcome
start_new caller request timeline case_id revision execution ids now t =
    if (t.anchor.timeline_id != timeline)
      || not (any (is_participant t.anchor.case_id caller.actor caller.role) t.participants)
    then err "NV003"
    else if t.anchor.case_id != case_id
    then err "NV003"
    else if t.anchor.current_revision != revision
    then err "NV020"
    else if milestones_mismatch t.anchor.milestones
    then err "NV006"
    else if not (is_none t.execution)
    then err "NV023"
    else ok (
      begun_with caller request execution ids now t,
      some (start_receipt caller request execution now),
    )

unfoldable pub start_unless :
    Request → Timeline → Result Outcome → Option IdempotencyRow → Result Outcome
start_unless request t new (some prior) =
    start_repeated (repeated "timeline_execution_started" request prior t)
start_unless request t new none = new

-- `start_timeline_execution`
unfoldable pub start_timeline_execution :
    Caller → Request → Uuid → Uuid → ℕ → Uuid → (ℕ → Uuid) → ℕ → Timeline → Result Outcome
start_timeline_execution caller request timeline case_id revision execution ids now t =
    if not ((caller.role == "student") || (caller.role == "parent"))
      || ((revision == 0) || is_request_invalid request)
    then err "NV006"
    else if not (has_context caller)
    then err "NV007"
    else start_unless request t
        (start_new caller request timeline case_id revision execution ids now t)
        (find_first (is_prior "timeline_execution_start" caller.actor request.key_sha256)
          t.idempotency)
