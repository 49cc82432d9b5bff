-- ===== src/Tests/TimelineAuthority.antt =====
-- An execution that a student starts, whose first checkpoint is attested and verified.
use night_voyager.TimelineAuthority.Calls.{to_attest, run}
use night_voyager.TimelineAuthority.Again.{run_again}
use night_voyager.Base.{All, ℕ, ◌+◌, String, ◌≡◌, refl, Option, none, some, List, [], ◌∷◌, map}
use night_voyager.Base.Results.{Result, ok, err}
use night_voyager.Calendar.{Date, make_date}
use night_voyager.Calendar.Ordinal.{IsDate}
use night_voyager.Planning.Models.{Uuid}
use night_voyager.Decision.Models.{TimelineMilestone}
use night_voyager.TimelineExecution.Enums.{
  TimelineCheckpointState, completion, ready_for_advisor, not_applicable, verify,
  attestation_verified,
}
use night_voyager.Leases.Calls.{is_sha256}
use night_voyager.TimelineAuthority.Rows.{
  ReceiptRow, ParticipantRow, Anchor, Timeline, Caller, Request, Target, has_context,
  is_participant,
}
use night_voyager.TimelineAuthority.Gate.{
  Outcome, is_request_invalid, is_target_invalid, find_execution, is_prior, is_open_state,
  sole_checkpoint, current_checkpoint, gated, unless_repeated, on_execution, on_current,
}
use night_voyager.TimelineAuthority.Writes.{update_checkpoint, next_version, recorded}
use night_voyager.TimelineAuthority.Start.{
  milestones_mismatch, checkpoint_at, checkpoints_from, start_receipt, begun_with, start_new,
  start_unless, start_timeline_execution,
}
use night_voyager.TimelineAuthority.Attest.{
  Attestation, codes_conflict, attested_state, attested, attest_writes, attest_on,
  attest_timeline_checkpoint,
}
use night_voyager.TimelineAuthority.Verify.{
  later_of, latest, is_attestation_on, is_completion_on, reason_conflicts, verified_at_now, opened,
  open_next, moved_on, verify_writes, verify_on, verify_timeline_checkpoint,
}
use night_voyager.TimelineAuthority.Steps.{
  IsFresh, starts, attests, verifies, unstarted, Reach, initial, next,
}
use night_voyager.TimelineAuthority.Standing.{IsSound}
use night_voyager.TimelineAuthority.Invariant.{Reach-IsSound}
use night_voyager.TimelineAuthority.Read.{read_timeline_execution}
use night_voyager.TimelineAuthority.Agreement.{IsAgreed, read_timeline_execution-IsAgreed}

abbrev on_day : ℕ → Date
on_day n = record { year = 2027; month = 3; day = n }

abbrev milestone : String → ℕ → TimelineMilestone
milestone key n = record { key = key; due_date = on_day n }

abbrev plan : Anchor
plan = record {
  timeline_id = 40;
  milestones =
      milestone "documents" 5
      ∷ milestone "application" 10
      ∷ milestone "visa" 20
      ∷ milestone "arrival" 30
      ∷ [];
  decision_id = 41;
  receipt_id = 42;
  case_id = 43;
  current_revision = 2;
}

abbrev people : List ParticipantRow
people =
    record { case_id = 43; actor_id = 1; role = "student" }
    ∷ record { case_id = 43; actor_id = 2; role = "advisor" }
    ∷ []

abbrev student : Caller
student = record {
  actor = 1;
  role = "student";
  session_actor = some 1;
  session_role = some "student";
}

abbrev advisor : Caller
advisor = record {
  actor = 2;
  role = "advisor";
  session_actor = some 2;
  session_role = some "advisor";
}

abbrev digest : String
digest = "0123456789abcdef0123456789abcdef0123456789abcdef0123456789abcdef"

abbrev request : ℕ → Request
request n = record { receipt = n; key_sha256 = digest; request_sha256 = digest }

abbrev ids : ℕ → Uuid
ids n = 100 + n

abbrev state_after : Result Outcome → Timeline
state_after (ok (t, _)) = t
state_after (err _) = unstarted plan people

abbrev before : Timeline
before = unstarted plan people

abbrev start_call : Result Outcome
start_call = start_timeline_execution student (request 60) 40 43 2 50 ids 1000 before

abbrev on_first : ℕ → Target
on_first version = record {
  case_id = 43;
  execution_id = 50;
  checkpoint_id = 101;
  execution_version = version;
  checkpoint_version = version;
}

abbrev attest_call : Result Outcome
attest_call =
    attest_timeline_checkpoint student (request 61) (on_first 1)
      (record {
        id = 70;
        kind = completion;
        status = ready_for_advisor;
        code = "documents_status_confirmed";
        reason = not_applicable;
      })
      2000 (state_after start_call)

abbrev verify_call : Result Outcome
verify_call =
    verify_timeline_checkpoint advisor (request 62) (on_first 2)
      (record { id = 80; attestation = 70; action = verify; reason = attestation_verified }) 3000
      (state_after attest_call)

starts_ok :
    start_call ≡ ok (state_after start_call, some (start_receipt student (request 60) 50 1000))
unfolding unstarted start_timeline_execution is_request_invalid is_sha256 has_context start_unless
    start_new is_participant milestones_mismatch begun_with checkpoints_from checkpoint_at
starts_ok = refl

abbrev receipt_of : Result Outcome → Option ReceiptRow
receipt_of (ok (_, r)) = r
receipt_of (err _) = none

attests_ok : attest_call ≡ ok (state_after attest_call, receipt_of attest_call)
unfolding unstarted start_timeline_execution is_request_invalid is_sha256 has_context start_unless
    start_new is_participant milestones_mismatch begun_with checkpoints_from checkpoint_at is_prior
    attest_timeline_checkpoint is_target_invalid on_current find_execution on_execution
    unless_repeated gated current_checkpoint is_open_state sole_checkpoint attest_on codes_conflict
    attested_state attested attest_writes update_checkpoint next_version recorded
attests_ok = refl

verifies_ok : verify_call ≡ ok (state_after verify_call, receipt_of verify_call)
unfolding unstarted start_timeline_execution is_request_invalid is_sha256 has_context start_unless
    start_new is_participant milestones_mismatch begun_with checkpoints_from checkpoint_at is_prior
    attest_timeline_checkpoint is_target_invalid on_current find_execution on_execution
    unless_repeated gated current_checkpoint is_open_state sole_checkpoint attest_on codes_conflict
    attested_state attested attest_writes update_checkpoint next_version recorded
    verify_timeline_checkpoint latest later_of is_attestation_on is_completion_on reason_conflicts
    verified_at_now opened open_next moved_on verify_writes verify_on
verifies_ok = refl

ids-IsFresh : IsFresh ids
ids-IsFresh = (refl, (refl, (refl, (refl, tt))))

reached : Reach plan people (state_after verify_call)
reached =
    next
      (next (next initial (starts student (request 60) 40 43 2 50 ids 1000 ids-IsFresh starts_ok))
        (attests student (request 61) (on_first 1) _ 2000 attests_ok))
      (verifies advisor (request 62) (on_first 2) _ 3000 verifies_ok)

Reach-IsSound_example : IsSound (state_after verify_call)
Reach-IsSound_example = Reach-IsSound reached

dates : All (λ c. IsDate c.due_date) (state_after verify_call).checkpoints
unfolding unstarted start_timeline_execution is_request_invalid is_sha256 has_context start_unless
    start_new is_participant milestones_mismatch begun_with checkpoints_from checkpoint_at is_prior
    attest_timeline_checkpoint is_target_invalid on_current find_execution on_execution
    unless_repeated gated current_checkpoint is_open_state sole_checkpoint attest_on codes_conflict
    attested_state attested attest_writes update_checkpoint next_version recorded
    verify_timeline_checkpoint latest later_of is_attestation_on is_completion_on reason_conflicts
    verified_at_now opened open_next moved_on verify_writes verify_on make_date
dates = (refl, (refl, (refl, (refl, tt))))

read_timeline_execution-IsAgreed_example :
    IsAgreed
      (on_day 12)
      (state_after verify_call).checkpoints
      (read_timeline_execution student 43 (on_day 12) (state_after verify_call))
unfolding make_date
read_timeline_execution-IsAgreed_example =
    read_timeline_execution-IsAgreed reached student 43 (on_day 12) refl dates

second_opened :
    map (λ c. c.state) (state_after verify_call).checkpoints
    ≡ TimelineCheckpointState.verified ∷ TimelineCheckpointState.in_progress
      ∷ TimelineCheckpointState.pending ∷ TimelineCheckpointState.pending ∷ []
unfolding unstarted start_timeline_execution is_request_invalid is_sha256 has_context start_unless
    start_new is_participant milestones_mismatch begun_with checkpoints_from checkpoint_at is_prior
    attest_timeline_checkpoint is_target_invalid on_current find_execution on_execution
    unless_repeated gated current_checkpoint is_open_state sole_checkpoint attest_on codes_conflict
    attested_state attested attest_writes update_checkpoint next_version recorded
    verify_timeline_checkpoint latest later_of is_attestation_on is_completion_on reason_conflicts
    verified_at_now opened open_next moved_on verify_writes verify_on
second_opened = refl

abbrev attestation : Attestation
attestation = record {
  id = 70;
  kind = completion;
  status = ready_for_advisor;
  code = "documents_status_confirmed";
  reason = not_applicable;
}

attests_run :
    run student
      (request 61)
      (to_attest (on_first 1) attestation)
      (on_day 1)
      2000
      (state_after start_call)
    ≡ ok (state_after attest_call, receipt_of attest_call)
unfolding run
attests_run = attests_ok

run_again_example :
    run student
      (request 61)
      (to_attest (on_first 1) attestation)
      (on_day 2)
      9000
      (state_after attest_call)
    ≡ ok (state_after attest_call, receipt_of attest_call)
run_again_example =
    run_again student (request 61) (to_attest (on_first 1) attestation) (on_day 1) (on_day 2) 2000
      9000 (state_after start_call) attests_run
