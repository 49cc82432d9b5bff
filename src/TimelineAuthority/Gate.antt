-- ===== src/TimelineAuthority/Gate.antt =====
-- What the three functions on a checkpoint share: the context, the lock on the execution, the
-- answer to a repeated request, and the tests down to the version of the checkpoint.
use night_voyager.Base.{
  if◌then◌else◌, ◌==◌, ◌!=◌, nat_eq, string_eq, option_eq, select, find_first, list_eq, String,
  Bool, true, false, not, ◌&&◌, ◌||◌, Option, none, some, List, [], ◌∷◌,
}
use night_voyager.Base.Results.{Result, ok, err}
use night_voyager.Planning.Models.{Uuid}
use night_voyager.TimelineExecution.Enums.{
  TimelineExecutionState, timeline_execution_state_eq, TimelineCheckpointState,
  timeline_checkpoint_state_eq, timeline_risk_state_eq, checkpoint_attestation_kind_eq,
  checkpoint_status_code_eq, checkpoint_attestation_reason_code_eq,
  checkpoint_verification_reason_code_eq,
}
use night_voyager.TimelineExecution.Models.{
  TimelineExecution, timeline_checkpoint_eq, timeline_activity_item_eq,
}
use night_voyager.Leases.Calls.{is_sha256}
use night_voyager.TimelineAuthority.Rows.{
  CheckpointRow, ReceiptRow, IdempotencyRow, Timeline, Caller, Request, Target, has_context,
}

-- What a call leaves, and the receipt that it returns.
abbrev pub Outcome : Type 0
Outcome = Timeline × Option ReceiptRow

unfoldable pub is_request_invalid : Request → Bool
is_request_invalid request =
    not (is_sha256 request.key_sha256) || not (is_sha256 request.request_sha256)

unfoldable pub is_target_invalid : Target → Bool
is_target_invalid target = (target.execution_version == 0) || (target.checkpoint_version == 0)

unfoldable pub find_execution : Uuid → Option TimelineExecution → Option TimelineExecution
find_execution id none = none
find_execution id (some e) = if e.execution_id == id then some e else none

-- `operation=... AND key_sha256=p_key_hash`
unfoldable pub is_prior : String → Uuid → String → IdempotencyRow → Bool
is_prior operation actor key r =
    (r.actor_id == actor) && ((r.operation == operation) && (r.key_sha256 == key))

unfoldable pub has_receipt_id : Uuid → ReceiptRow → Bool
has_receipt_id id r = r.receipt_id == id

-- The answer to a request that was made before.
unfoldable pub repeated : String → Request → IdempotencyRow → Timeline → Result Outcome
repeated kind request prior t =
    if (prior.request_sha256 != request.request_sha256) || (prior.response_kind != kind)
    then err "NV008"
    else ok (t, find_first (has_receipt_id prior.response_id) t.receipts)

-- `state NOT IN ('pending','verified')`
unfoldable pub is_open_state : TimelineCheckpointState → Bool
is_open_state TimelineCheckpointState.pending = false
is_open_state TimelineCheckpointState.verified = false
is_open_state _ = true

abbrev pub is_open_row : CheckpointRow → Bool
is_open_row c = is_open_state c.state

-- The tests on the current checkpoints of an active execution.
unfoldable pub sole_checkpoint :
    Target → TimelineExecution → List CheckpointRow → Result CheckpointRow
sole_checkpoint target e (c ∷ []) =
    if c.id != target.checkpoint_id
    then err "NV023"
    else if e.row_version != target.execution_version
    then err "NV020"
    else if c.row_version != target.checkpoint_version
    then err "NV021"
    else ok c
sole_checkpoint target e _ = err "NV023"

unfoldable pub current_checkpoint :
    Target → TimelineExecution → List CheckpointRow → Result CheckpointRow
current_checkpoint target e checkpoints =
    if e.case_id != target.case_id
    then err "NV003"
    else if e.state == TimelineExecutionState.completed
    then err "NV022"
    else if e.state != TimelineExecutionState.active
    then err "NV026"
    else sole_checkpoint target e (select is_open_row checkpoints)

unfoldable pub gated :
    (TimelineExecution → CheckpointRow → Result Outcome)
    → TimelineExecution
    → Result CheckpointRow
    → Result Outcome
gated act e (err code) = err code
gated act e (ok c) = act e c

unfoldable pub unless_repeated :
    String
    → Request
    → Target
    → Timeline
    → (TimelineExecution → CheckpointRow → Result Outcome)
    → TimelineExecution
    → Option IdempotencyRow
    → Result Outcome
unless_repeated kind request target t act e (some prior) = repeated kind request prior t
unless_repeated kind request target t act e none =
    gated act e (current_checkpoint target e t.checkpoints)

unfoldable pub on_execution :
    String
    → String
    → Caller
    → Request
    → Target
    → Timeline
    → (TimelineExecution → CheckpointRow → Result Outcome)
    → Option TimelineExecution
    → Result Outcome
on_execution operation kind caller request target t act none = err "NV003"
on_execution operation kind caller request target t act (some e) =
    unless_repeated kind request target t act e
      (find_first (is_prior operation caller.actor request.key_sha256) t.idempotency)

-- From the test of the context to that of the checkpoint's version, and then `act`.
unfoldable pub on_current :
    String
    → String
    → Caller
    → Request
    → Target
    → Timeline
    → (TimelineExecution → CheckpointRow → Result Outcome)
    → Result Outcome
on_current operation kind caller request target t act =
    if not (has_context caller)
    then err "NV007"
    else on_execution operation kind caller request target t act
        (find_execution target.execution_id t.execution)
