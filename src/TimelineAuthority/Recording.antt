-- ===== src/TimelineAuthority/Recording.antt =====
-- What each of the four calls records.
use mathlib.Core.Path.{subst}
use night_voyager.Base.{
  Bool-cases, is_none, ◌==◌, ◌!=◌, nat_eq, string_eq, beq_refl, option_eq, find_first, list_eq, ℕ,
  ◌≡◌, refl, sym, ap, inl, inr, not, ◌||◌, Option, none, some, arith,
}
use night_voyager.Base.Results.{Result, ok, err, ok-injective, if-err}
use night_voyager.Calendar.{Date, date_eq}
use night_voyager.Planning.Models.{Uuid}
use night_voyager.TimelineExecution.Enums.{
  TimelineExecutionState, timeline_execution_state_eq, timeline_checkpoint_state_eq,
  timeline_risk_state_eq, checkpoint_attestation_kind_eq, checkpoint_status_code_eq,
  checkpoint_attestation_reason_code_eq, CheckpointVerificationAction, verify, request_update,
  checkpoint_verification_reason_code_eq,
}
use night_voyager.TimelineExecution.Models.{
  TimelineExecution, timeline_checkpoint_eq, timeline_activity_item_eq,
}
use night_voyager.TimelineAuthority.Rows.{
  CheckpointRow, ReceiptRow, IdempotencyRow, Timeline, Caller, Request, Target,
}
use night_voyager.TimelineAuthority.Gate.{Outcome, is_prior, has_receipt_id, repeated}
use night_voyager.TimelineAuthority.Writes.{next_version}
use night_voyager.TimelineAuthority.Start.{
  milestones_mismatch, start_receipt, begun_with, start_repeated, start_new, start_unless,
}
use night_voyager.TimelineAuthority.Attest.{Attestation, codes_conflict, attest_writes, attest_on}
use night_voyager.TimelineAuthority.Verify.{
  Verification, update_requested, completed_by, moved_on, verify_writes, verify_on,
}
use night_voyager.TimelineAuthority.Reassess.{
  Reassessment, proof_is_missing, reassess_writes, reassess_on,
}
use night_voyager.TimelineAuthority.Replays.{IsAnswered, IsRecorded}

pub attest_on-IsRecorded :
    (caller : Caller) (request : Request) (target : Target) (a : Attestation) (now : ℕ)
    (t : Timeline) (out : Outcome) (e : TimelineExecution) (c : CheckpointRow)
    → attest_on caller request target a now t e c ≡ ok out
    → IsRecorded "timeline_checkpoint_attest" "timeline_checkpoint_attested" caller request target e
        out
unfolding attest_on attest_writes next_version
attest_on-IsRecorded caller request target a now t out e c h =
    let (_, rest) = if-err {T = Outcome} _ _ _ h in
    let (_, done) = if-err {T = Outcome} (codes_conflict c.milestone_key a) _ _ rest in
    record {
      name = "attest";
      result = a.id;
      step = 1;
      now = now;
      written = attest_writes caller request target a now t e;
      execution = next_version e.state now e;
      same = ok-injective {T = Outcome} done;
      stored = refl;
      same_id = refl;
    }

verify_writes-stored :
    (action : CheckpointVerificationAction) (target : Target) (now : ℕ) (t : Timeline)
    (e : TimelineExecution) (c : CheckpointRow)
    → (f : TimelineExecution) × ((verify_writes action target now t e c).execution ≡ some f)
      × (f.execution_id ≡ e.execution_id)
unfolding verify_writes update_requested completed_by moved_on next_version
verify_writes-stored request_update target now t e c = (next_version e.state now e, refl, refl)
verify_writes-stored verify target now t e c = elim (Bool-cases (c.milestone_key == "arrival")) [
  | inl last ↦ (next_version TimelineExecutionState.completed now e, rw last refl, refl)
  | inr early ↦ (next_version e.state now e, rw early refl, refl)
]

pub verify_on-IsRecorded :
    (caller : Caller) (request : Request) (target : Target) (v : Verification) (now : ℕ)
    (t : Timeline) (out : Outcome) (e : TimelineExecution) (c : CheckpointRow)
    → verify_on caller request target v now t e c ≡ ok out
    → IsRecorded "timeline_checkpoint_verify" "timeline_checkpoint_verified" caller request target e
        out
unfolding verify_on
verify_on-IsRecorded caller request target v now t out e c h =
    let (_, done) = if-err {T = Outcome} _ _ _ h in
    let (f, stored, same_id) = verify_writes-stored v.action target now _ e c in
    record {
      name = "verify";
      result = v.id;
      step = 1;
      now = now;
      written = _;
      execution = f;
      same = ok-injective {T = Outcome} done;
      stored = stored;
      same_id = same_id;
    }

pub reassess_on-IsRecorded :
    (caller : Caller) (request : Request) (target : Target) (r : Reassessment) (today : Date)
    (now : ℕ) (t : Timeline) (out : Outcome) (e : TimelineExecution) (c : CheckpointRow)
    → reassess_on caller request target r today now t e c ≡ ok out
    → IsRecorded "timeline_reassessment_request" "timeline_reassessment_requested" caller request
        target e out
unfolding reassess_on reassess_writes next_version
reassess_on-IsRecorded caller request target r today now t out e c h =
    let (_, rest) = if-err {T = Outcome} _ _ _ h in
    let (_, done) =
      if-err {T = Outcome} (proof_is_missing target r.trigger r.reference today t.attestations c) _
        _ rest in
    record {
      name = "reassess";
      result = r.id;
      step = 0;
      now = now;
      written = reassess_writes caller request target r today now t e;
      execution = next_version TimelineExecutionState.reassessment_required now e;
      same = ok-injective {T = Outcome} done;
      stored = refl;
      same_id = refl;
    }

-- A start, which gives a receipt whenever it succeeds.
abbrev pub IsStarted : Caller → Request → Outcome → Type 0
IsStarted caller request out =
    (receipt : ReceiptRow) × (out.1 ≡ some receipt)
    × IsAnswered "timeline_execution_start" "timeline_execution_started" caller.actor request out.0
        out.1

begun_with-IsAnswered :
    (caller : Caller) (request : Request) (execution : Uuid) (ids : ℕ → Uuid) (now : ℕ)
    (t : Timeline)
    → IsAnswered "timeline_execution_start" "timeline_execution_started" caller.actor request
        (begun_with caller request execution ids now t)
        (some (start_receipt caller request execution now))
unfolding begun_with is_prior has_receipt_id
begun_with-IsAnswered caller request execution ids now t = record {
  prior = record {
    actor_id = caller.actor;
    operation = "timeline_execution_start";
    key_sha256 = request.key_sha256;
    request_sha256 = request.request_sha256;
    response_kind = "timeline_execution_started";
    response_id = request.receipt;
    created_at = now;
  };
  found = rw (beq_refl caller.actor, beq_refl request.key_sha256) refl;
  same_request = ground (arith, beq_refl request.request_sha256);
  receipt_found = rw (beq_refl request.receipt) refl;
}

pub start_new-IsStarted :
    (caller : Caller) (request : Request) (timeline case_id : Uuid) (revision : ℕ)
    (execution : Uuid) (ids : ℕ → Uuid) (now : ℕ) (t : Timeline) (out : Outcome)
    → start_new caller request timeline case_id revision execution ids now t ≡ ok out
    → IsStarted caller request out
unfolding start_new
start_new-IsStarted caller request timeline case_id revision execution ids now t out h =
    let (_, a) = if-err {T = Outcome} _ _ _ h in
    let (_, b) = if-err {T = Outcome} (t.anchor.case_id != case_id) _ _ a in
    let (_, c) = if-err {T = Outcome} (t.anchor.current_revision != revision) _ _ b in
    let (_, d) = if-err {T = Outcome} (milestones_mismatch t.anchor.milestones) _ _ c in
    let (_, done) = if-err {T = Outcome} (not (is_none t.execution)) _ _ d in
    subst (IsStarted caller request) (ok-injective {T = Outcome} done) (
      start_receipt caller request execution now,
      refl,
      begun_with-IsAnswered caller request execution ids now t,
    )

start_repeated-ok :
    (answer : Result Outcome) {out : Outcome}
    → start_repeated answer ≡ ok out
    → (receipt : ReceiptRow) × (out.1 ≡ some receipt) × (answer ≡ ok out)
unfolding start_repeated
start_repeated-ok (err code) h = cc
start_repeated-ok (ok (u, none)) h = cc
start_repeated-ok (ok (u, some s)) h = (s, ap (λ o. o.1) (sym (ok-injective {T = Outcome} h)), h)

pub start_unless-IsStarted :
    (caller : Caller) (request : Request) (t : Timeline) (new : Result Outcome)
    (prior : Option IdempotencyRow) (out : Outcome)
    → find_first (is_prior "timeline_execution_start" caller.actor request.key_sha256) t.idempotency
      ≡ prior
    → (new ≡ ok out → IsStarted caller request out)
    → start_unless request t new prior ≡ ok out
    → IsStarted caller request out
unfolding start_unless repeated
start_unless-IsStarted caller request t new none out at fresh h = fresh h
start_unless-IsStarted caller request t new (some prior) out at fresh h =
    let (receipt, given, answer) =
      start_repeated-ok (repeated "timeline_execution_started" request prior t) h in
    let (fits, done) =
      if-err {T = Outcome}
        ((prior.request_sha256 != request.request_sha256)
          || (prior.response_kind != "timeline_execution_started"))
        _ _ answer in
    let same : (t, find_first (has_receipt_id prior.response_id) t.receipts) ≡ out =
      ok-injective {T = Outcome} done in
    (
      receipt,
      given,
      subst
          (λ o.
            IsAnswered "timeline_execution_start" "timeline_execution_started" caller.actor request
              o.0 o.1)
          same (record { prior = prior; found = at; same_request = fits; receipt_found = refl }),
    )
