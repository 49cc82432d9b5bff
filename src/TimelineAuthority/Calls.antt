-- ===== src/TimelineAuthority/Calls.antt =====
-- The four calls that change a timeline, with what the caller sends.
use night_voyager.Base.{ℕ}
use night_voyager.Base.Results.{Result}
use night_voyager.Calendar.{Date}
use night_voyager.Planning.Models.{Uuid}
use night_voyager.TimelineAuthority.Rows.{Timeline, Caller, Request, Target}
use night_voyager.TimelineAuthority.Gate.{Outcome}
use night_voyager.TimelineAuthority.Start.{start_timeline_execution}
use night_voyager.TimelineAuthority.Attest.{Attestation, attest_timeline_checkpoint}
use night_voyager.TimelineAuthority.Verify.{Verification, verify_timeline_checkpoint}
use night_voyager.TimelineAuthority.Reassess.{Reassessment, request_timeline_reassessment}

pub data Call : Type 0 where
  to_start : Uuid → Uuid → ℕ → Uuid → (ℕ → Uuid) → Call
  to_attest : Target → Attestation → Call
  to_verify : Target → Verification → Call
  to_reassess : Target → Reassessment → Call

-- A call at a moment of a day.
unfoldable pub run : Caller → Request → Call → Date → ℕ → Timeline → Result Outcome
run caller request (to_start timeline case_id revision execution ids) today now t =
    start_timeline_execution caller request timeline case_id revision execution ids now t
run caller request (to_attest target a) today now t =
    attest_timeline_checkpoint caller request target a now t
run caller request (to_verify target v) today now t =
    verify_timeline_checkpoint caller request target v now t
run caller request (to_reassess target r) today now t =
    request_timeline_reassessment caller request target r today now t
