-- ===== src/TimelineAuthority/Replays.antt =====
-- A call that is repeated.
use night_voyager.Base.Equality.{◌!=◌, nat_eq, string_eq, beq_refl, option_eq}
use night_voyager.TimelineAuthority.Passed.{gated-ok}
use mathlib.Core.Path.{subst}
use night_voyager.Base.{
  find_first, list_eq, ℕ, String, ◌≡◌, refl, ap, ◌∙◌, true, false, not, ◌||◌, Option, none, some,
  arith,
}
use night_voyager.Base.Results.{Result, ok, ok-injective, if-err}
use night_voyager.Calendar.{date_eq}
use night_voyager.Planning.Models.{Uuid}
use night_voyager.TimelineExecution.Enums.{
  timeline_execution_state_eq, timeline_checkpoint_state_eq, timeline_risk_state_eq,
  checkpoint_attestation_kind_eq, checkpoint_status_code_eq, checkpoint_attestation_reason_code_eq,
  checkpoint_verification_reason_code_eq,
}
use night_voyager.TimelineExecution.Models.{
  TimelineExecution, timeline_checkpoint_eq, timeline_activity_item_eq,
}
use night_voyager.TimelineAuthority.Rows.{
  CheckpointRow, ReceiptRow, IdempotencyRow, Timeline, Caller, Request, Target, has_context,
}
use night_voyager.TimelineAuthority.Gate.{
  Outcome, find_execution, is_prior, has_receipt_id, repeated, current_checkpoint, unless_repeated,
  on_execution, on_current,
}
use night_voyager.TimelineAuthority.Writes.{recorded}

-- The request was answered by the receipt.
pub record IsAnswered (operation kind : String) (actor : Uuid) (request : Request) (t : Timeline)
    (receipt : Option ReceiptRow) : Type 0 where
  pub prior : IdempotencyRow
  pub found : find_first (is_prior operation actor request.key_sha256) t.idempotency ≡ some prior
  pub same_request :
      ((prior.request_sha256 != request.request_sha256) || (prior.response_kind != kind)) ≡ false
  pub receipt_found : find_first (has_receipt_id prior.response_id) t.receipts ≡ receipt

pub IsAnswered-repeated :
    (operation kind : String) (actor : Uuid) (request : Request) (t : Timeline)
    (receipt : Option ReceiptRow) (a : IsAnswered operation kind actor request t receipt)
    → repeated kind request a.prior t ≡ ok (t, receipt)
unfolding repeated
IsAnswered-repeated operation kind actor request t receipt a =
    rw a.same_request (ap (λ r. ok (t, r)) a.receipt_found)

-- What a call on a checkpoint leaves when it writes.
pub record IsRecorded (operation kind : String) (caller : Caller) (request : Request)
    (target : Target) (e : TimelineExecution) (out : Outcome) : Type 0 where
  pub name : String
  pub result : Uuid
  pub step : ℕ
  pub now : ℕ
  pub written : Timeline
  pub execution : TimelineExecution
  pub same : recorded name operation kind result step caller request target now written ≡ out
  pub stored : written.execution ≡ some execution
  pub same_id : execution.execution_id ≡ e.execution_id

recorded-IsAnswered :
    (name operation kind : String) (result : Uuid) (step : ℕ) (caller : Caller) (request : Request)
    (target : Target) (now : ℕ) (w : Timeline)
    → IsAnswered operation kind caller.actor request
        (recorded name operation kind result step caller request target now w).0
        (recorded name operation kind result step caller request target now w).1
unfolding recorded is_prior has_receipt_id
recorded-IsAnswered name operation kind result step caller request target now w =
    let prior : IdempotencyRow = record {
      actor_id = caller.actor;
      operation = operation;
      key_sha256 = request.key_sha256;
      request_sha256 = request.request_sha256;
      response_kind = kind;
      response_id = request.receipt;
      created_at = now;
    } in
    record {
      prior = prior;
      found = rw (beq_refl caller.actor, beq_refl operation, beq_refl request.key_sha256) refl;
      same_request = ground (arith, beq_refl request.request_sha256, beq_refl kind);
      receipt_found = rw (beq_refl request.receipt) refl;
    }

find_execution-same :
    (id : Uuid) (stored : Option TimelineExecution) (e f : TimelineExecution)
    → find_execution id stored ≡ some e
    → f.execution_id ≡ e.execution_id
    → find_execution id (some f) ≡ some f
unfolding find_execution
find_execution-same id none e f found same = cc
find_execution-same id (some d) e f found same = ground (arith, found, same)

-- A call on a checkpoint, whatever it does there.
module _ (operation kind : String) (caller : Caller) (request : Request) (target : Target) where
  -- It was answered, and its execution is there.
  pub record IsSettled (t : Timeline) (receipt : Option ReceiptRow) : Type 0 where
    pub context : has_context caller ≡ true
    pub execution : TimelineExecution
    pub found : find_execution target.execution_id t.execution ≡ some execution
    pub answered : IsAnswered operation kind caller.actor request t receipt

  pub IsSettled-on_current :
      (act : TimelineExecution → CheckpointRow → Result Outcome) (t : Timeline)
      (receipt : Option ReceiptRow)
      → IsSettled t receipt
      → on_current operation kind caller request target t act ≡ ok (t, receipt)
  unfolding on_current on_execution unless_repeated
  IsSettled-on_current act t receipt s =
      rw (s.context, s.found, s.answered.found)
        (IsAnswered-repeated operation kind caller.actor request t receipt s.answered)

  IsRecorded-IsSettled :
      (t : Timeline) (e : TimelineExecution) (out : Outcome)
      → has_context caller ≡ true
      → find_execution target.execution_id t.execution ≡ some e
      → IsRecorded operation kind caller request target e out
      → IsSettled out.0 out.1
  unfolding recorded
  IsRecorded-IsSettled t e out context found r =
      subst (λ o. IsSettled o.0 o.1) r.same
        (record {
          context = context;
          execution = r.execution;
          found =
              ap (find_execution target.execution_id) r.stored
              ∙ find_execution-same target.execution_id t.execution e r.execution found r.same_id;
          answered =
              recorded-IsAnswered r.name operation kind r.result r.step caller request target r.now
                r.written;
        })

  module _ (act : TimelineExecution → CheckpointRow → Result Outcome) (t : Timeline) (u : Timeline)
      (receipt : Option ReceiptRow)
      (records : (e : TimelineExecution) (c : CheckpointRow)
        → act e c ≡ ok (u, receipt)
        → IsRecorded operation kind caller request target e (u, receipt)) where
    unless_repeated-IsSettled :
        (e : TimelineExecution) (prior : Option IdempotencyRow)
        → has_context caller ≡ true
        → find_execution target.execution_id t.execution ≡ some e
        → find_first (is_prior operation caller.actor request.key_sha256) t.idempotency ≡ prior
        → unless_repeated kind request target t act e prior ≡ ok (u, receipt)
        → IsSettled u receipt
    unfolding unless_repeated repeated
    unless_repeated-IsSettled e none context found at h =
        let (c, _, done) = gated-ok act e (current_checkpoint target e t.checkpoints) h in
        IsRecorded-IsSettled t e (u, receipt) context found (records e c done)
    unless_repeated-IsSettled e (some prior) context found at h =
        let (fits, done) =
          if-err {T = Outcome}
            ((prior.request_sha256 != request.request_sha256) || (prior.response_kind != kind)) _ _
            h in
        let same : (t, find_first (has_receipt_id prior.response_id) t.receipts) ≡ (u, receipt) =
          ok-injective {T = Outcome} done in
        subst (λ o. IsSettled o.0 o.1) same
          (record {
            context = context;
            execution = e;
            found = found;
            answered = record {
              prior = prior;
              found = at;
              same_request = fits;
              receipt_found = refl;
            };
          })

    on_execution-IsSettled :
        (stored : Option TimelineExecution)
        → has_context caller ≡ true
        → find_execution target.execution_id t.execution ≡ stored
        → on_execution operation kind caller request target t act stored ≡ ok (u, receipt)
        → IsSettled u receipt
    unfolding on_execution
    on_execution-IsSettled none context found h = cc
    on_execution-IsSettled (some e) context found h =
        unless_repeated-IsSettled e _ context found refl h

    -- A success of the call settles it, where `act` records.
    pub on_current-IsSettled :
        on_current operation kind caller request target t act ≡ ok (u, receipt)
        → IsSettled u receipt
    unfolding on_current
    on_current-IsSettled h =
        let (known, rest) = if-err {T = Outcome} (not (has_context caller)) _ _ h in
        on_execution-IsSettled _ (ground (arith, known)) refl rest
