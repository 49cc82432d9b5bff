-- ===== src/TimelineAuthority/Again.antt =====
-- Each of the four calls, repeated.
use night_voyager.Base.{
  ◌==◌, ◌!=◌, nat_eq, string_eq, option_eq, find_first, list_eq, ℕ, ◌≡◌, refl, sym, ap, ◌∙◌, not,
  ◌||◌, Option,
}
use night_voyager.Base.Results.{Result, ok, if-err}
use night_voyager.Calendar.{Date, date_eq}
use night_voyager.TimelineExecution.Enums.{
  timeline_execution_state_eq, timeline_checkpoint_state_eq, timeline_risk_state_eq,
  checkpoint_attestation_kind_eq, checkpoint_status_code_eq, checkpoint_attestation_reason_code_eq,
  checkpoint_verification_reason_code_eq,
}
use night_voyager.TimelineExecution.Models.{timeline_checkpoint_eq, timeline_activity_item_eq}
use night_voyager.TimelineAuthority.Rows.{ReceiptRow, Timeline, Caller, Request, has_context}
use night_voyager.TimelineAuthority.Gate.{Outcome, is_request_invalid, is_target_invalid, is_prior}
use night_voyager.TimelineAuthority.Start.{start_repeated, start_unless, start_timeline_execution}
use night_voyager.TimelineAuthority.Attest.{attest_on, attest_timeline_checkpoint}
use night_voyager.TimelineAuthority.Verify.{verify_on, verify_timeline_checkpoint}
use night_voyager.TimelineAuthority.Reassess.{reassess_on, request_timeline_reassessment}
use night_voyager.TimelineAuthority.Calls.{Call, to_start, to_attest, to_verify, to_reassess, run}
use night_voyager.TimelineAuthority.Replays.{
  IsAnswered-repeated, IsSettled-on_current, on_current-IsSettled,
}
use night_voyager.TimelineAuthority.Recording.{
  attest_on-IsRecorded, verify_on-IsRecorded, reassess_on-IsRecorded, IsStarted,
  start_new-IsStarted, start_unless-IsStarted,
}

start_unless-again :
    (caller : Caller) (request : Request) (new : Result Outcome) (out : Outcome)
    → IsStarted caller request out
    → start_unless request out.0 new (
        find_first
          (is_prior "timeline_execution_start" caller.actor request.key_sha256)
          out.0.idempotency)
      ≡ ok out
unfolding start_unless start_repeated
start_unless-again caller request new out (receipt, given, answered) = rw answered.found (
    ap start_repeated (
      IsAnswered-repeated "timeline_execution_start" "timeline_execution_started" caller.actor
        request out.0 out.1 answered
      ∙ ap (λ r. ok (out.0, r)) given)
    ∙ ap (λ r. ok (out.0, r)) (sym given))

-- A call that succeeded, made again with the same parameters on what it left, whatever the moment
-- and the day, changes nothing and returns the same receipt.
pub run_again :
    (caller : Caller) (request : Request) (call : Call) (today another_day : Date) (now later : ℕ)
    (t : Timeline) {u : Timeline} {receipt : Option ReceiptRow}
    → run caller request call today now t ≡ ok (u, receipt)
    → run caller request call another_day later u ≡ ok (u, receipt)
unfolding run start_timeline_execution attest_timeline_checkpoint verify_timeline_checkpoint
    request_timeline_reassessment
run_again caller request (to_start timeline case_id revision execution ids) today another_day now
      later t {u} {receipt} h =
    let (valid, rest) =
      if-err {T = Outcome}
        (not ((caller.role == "student") || (caller.role == "parent"))
          || ((revision == 0) || is_request_invalid request))
        _ _ h in
    let (known, last) = if-err {T = Outcome} (not (has_context caller)) _ _ rest in
    rw (valid, known)
      (start_unless-again caller request _ (u, receipt)
        (start_unless-IsStarted caller request t _ _ (u, receipt) refl
          (start_new-IsStarted caller request timeline case_id revision execution ids now t
            (u, receipt))
          last))
run_again caller request (to_attest target a) today another_day now later t {u} {receipt} h =
    let (valid, rest) =
      if-err {T = Outcome}
        (not ((caller.role == "student") || (caller.role == "parent"))
          || (is_target_invalid target || is_request_invalid request))
        _ _ h in
    rw valid (
      IsSettled-on_current "timeline_checkpoint_attest" "timeline_checkpoint_attested" caller
        request target _ u receipt
        (on_current-IsSettled "timeline_checkpoint_attest" "timeline_checkpoint_attested" caller
          request target (attest_on caller request target a now t) t u receipt
          (attest_on-IsRecorded caller request target a now t (u, receipt)) rest))
run_again caller request (to_verify target v) today another_day now later t {u} {receipt} h =
    let (valid, rest) =
      if-err {T = Outcome}
        ((caller.role != "advisor") || (is_target_invalid target || is_request_invalid request)) _ _
        h in
    rw valid (
      IsSettled-on_current "timeline_checkpoint_verify" "timeline_checkpoint_verified" caller
        request target _ u receipt
        (on_current-IsSettled "timeline_checkpoint_verify" "timeline_checkpoint_verified" caller
          request target (verify_on caller request target v now t) t u receipt
          (verify_on-IsRecorded caller request target v now t (u, receipt)) rest))
run_again caller request (to_reassess target r) today another_day now later t {u} {receipt} h =
    let (valid, rest) =
      if-err {T = Outcome}
        ((caller.role != "advisor") || (is_target_invalid target || is_request_invalid request)) _ _
        h in
    rw valid (
      IsSettled-on_current "timeline_reassessment_request" "timeline_reassessment_requested" caller
        request target _ u receipt
        (on_current-IsSettled "timeline_reassessment_request" "timeline_reassessment_requested"
          caller request target (reassess_on caller request target r today now t) t u receipt
          (reassess_on-IsRecorded caller request target r today now t (u, receipt)) rest))
