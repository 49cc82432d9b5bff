-- ===== src/TimelineAuthority/Writes.antt =====
-- The writes that the functions on a checkpoint share.
use night_voyager.Base.{
  if◌then◌else◌, ◌==◌, nat_eq, string_eq, option_eq, list_eq, ℕ, ◌+◌, String, some, List, ◌∷◌, map,
}
use night_voyager.Calendar.{date_eq}
use night_voyager.Planning.Models.{Uuid}
use night_voyager.TimelineExecution.Enums.{
  TimelineExecutionState, timeline_execution_state_eq, timeline_checkpoint_state_eq,
  timeline_risk_state_eq, checkpoint_attestation_kind_eq, checkpoint_status_code_eq,
  checkpoint_attestation_reason_code_eq, checkpoint_verification_reason_code_eq,
}
use night_voyager.TimelineExecution.Models.{
  TimelineExecution, timeline_checkpoint_eq, timeline_activity_item_eq,
}
use night_voyager.TimelineAuthority.Rows.{
  CheckpointRow, ReceiptRow, Timeline, Caller, Request, Target,
}
use night_voyager.TimelineAuthority.Gate.{Outcome}

-- `UPDATE app.timeline_checkpoints ... WHERE id=p_checkpoint`
unfoldable pub update_checkpoint :
    Uuid → (CheckpointRow → CheckpointRow) → List CheckpointRow → List CheckpointRow
update_checkpoint id change checkpoints = map (λ c. if c.id == id then change c else c) checkpoints

-- `UPDATE app.timeline_executions SET row_version=row_version+1`, with the state that it sets
unfoldable pub next_version : TimelineExecutionState → ℕ → TimelineExecution → TimelineExecution
next_version state now e = record e {
  state = state;
  row_version = e.row_version + 1;
  updated_at = now;
}

-- The last two `INSERT`s of a call on a checkpoint; `step` is what the checkpoint's version grows by.
unfoldable pub recorded :
    String → String → String → Uuid → ℕ → Caller → Request → Target → ℕ → Timeline → Outcome
recorded name operation kind result step caller request target now t =
    let receipt : ReceiptRow = record {
      receipt_id = request.receipt;
      actor_id = caller.actor;
      operation = name;
      key_sha256 = request.key_sha256;
      request_sha256 = request.request_sha256;
      result_kind = kind;
      result_id = result;
      execution_id = target.execution_id;
      checkpoint_id = some target.checkpoint_id;
      before_execution_version = some target.execution_version;
      after_execution_version = target.execution_version + 1;
      before_checkpoint_version = some target.checkpoint_version;
      after_checkpoint_version = some (target.checkpoint_version + step);
      created_at = now;
    } in
    (
      record t {
        receipts = receipt ∷ t.receipts;
        idempotency =
            record {
              actor_id = caller.actor;
              operation = operation;
              key_sha256 = request.key_sha256;
              request_sha256 = request.request_sha256;
              response_kind = kind;
              response_id = request.receipt;
              created_at = now;
            }
            ∷ t.idempotency;
      },
      some receipt,
    )
