-- ===== src/TimelineAuthority/Steps.antt =====
-- The calls that succeed on a timeline, as a relation, and what each may write.
use night_voyager.Base.{
  ◌==◌, nat_eq, string_eq, option_eq, list_eq, ℕ, String, ◌≡◌, Bool, true, false, ◌&&◌, Option,
  none, List, [], ◌∷◌,
}
use night_voyager.Base.ListLaws.{Unique}
use night_voyager.Base.Results.{ok}
use night_voyager.Calendar.{Date, date_eq}
use night_voyager.Planning.Models.{Uuid}
use night_voyager.TimelineExecution.Enums.{
  timeline_execution_state_eq, timeline_checkpoint_state_eq, timeline_risk_state_eq,
  checkpoint_attestation_kind_eq, checkpoint_status_code_eq, checkpoint_attestation_reason_code_eq,
  CheckpointVerificationAction, verify, request_update, checkpoint_verification_reason_code_eq,
}
use night_voyager.TimelineExecution.Models.{
  TimelineExecution, timeline_checkpoint_eq, timeline_activity_item_eq,
}
use night_voyager.TimelineAuthority.Rows.{
  CheckpointRow, VerificationRow, ReceiptRow, ParticipantRow, Anchor, Timeline, Caller, Request,
  Target,
}
use night_voyager.TimelineAuthority.Writes.{recorded}
use night_voyager.TimelineAuthority.Start.{
  milestones_mismatch, begun_with, start_timeline_execution,
}
use night_voyager.TimelineAuthority.Attest.{Attestation, attest_writes, attest_timeline_checkpoint}
use night_voyager.TimelineAuthority.Verify.{
  Verification, update_requested, completed_by, moved_on, verify_timeline_checkpoint,
}
use night_voyager.TimelineAuthority.Reassess.{
  Reassessment, reassess_writes, request_timeline_reassessment,
}
use night_voyager.TimelineAuthority.Passed.{IsGated}

-- `gen_random_uuid()` gives the checkpoints different ids.
abbrev pub IsFresh : (ℕ → Uuid) → Type 0
IsFresh ids = Unique (ids 1 ∷ ids 2 ∷ ids 3 ∷ ids 4 ∷ [])

pub data Step (t : Timeline) : Timeline → Type 0 where
  starts :
      {u : Timeline} {receipt : Option ReceiptRow} (caller : Caller) (request : Request)
      (timeline case_id : Uuid) (revision : ℕ) (execution : Uuid) (ids : ℕ → Uuid) (now : ℕ)
      → IsFresh ids
      → start_timeline_execution caller request timeline case_id revision execution ids now t
        ≡ ok (u, receipt)
      → Step t u
  attests :
      {u : Timeline} {receipt : Option ReceiptRow} (caller : Caller) (request : Request)
      (target : Target) (a : Attestation) (now : ℕ)
      → attest_timeline_checkpoint caller request target a now t ≡ ok (u, receipt)
      → Step t u
  verifies :
      {u : Timeline} {receipt : Option ReceiptRow} (caller : Caller) (request : Request)
      (target : Target) (v : Verification) (now : ℕ)
      → verify_timeline_checkpoint caller request target v now t ≡ ok (u, receipt)
      → Step t u
  reassesses :
      {u : Timeline} {receipt : Option ReceiptRow} (caller : Caller) (request : Request)
      (target : Target) (r : Reassessment) (today : Date) (now : ℕ)
      → request_timeline_reassessment caller request target r today now t ≡ ok (u, receipt)
      → Step t u

-- A timeline whose execution nobody has started.
unfoldable pub unstarted : Anchor → List ParticipantRow → Timeline
unstarted anchor participants = record {
  anchor = anchor;
  participants = participants;
  execution = none;
  checkpoints = [];
  attestations = [];
  verifications = [];
  reassessments = [];
  receipts = [];
  idempotency = [];
}

pub data Reach (anchor : Anchor) (participants : List ParticipantRow) : Timeline → Type 0 where
  initial : Reach anchor participants (unstarted anchor participants)
  next : {t u : Timeline} → Reach anchor participants t → Step t u → Reach anchor participants u

abbrev is_verify : CheckpointVerificationAction → Bool
is_verify verify = true
is_verify request_update = false

-- An advisor's verification of the checkpoint.
unfoldable pub is_verification_of : Uuid → VerificationRow → Bool
is_verification_of id v = is_verify v.action && (v.checkpoint_id == id)

-- The writes of a call on the current checkpoint, before its receipt.
pub data Written (t : Timeline) (target : Target) (e : TimelineExecution) (c : CheckpointRow)
    : Timeline → Type 0 where
  attesting :
      (caller : Caller) (request : Request) (a : Attestation) (now : ℕ)
      → Written t target e c (attest_writes caller request target a now t e)
  returning :
      (v : VerificationRow) (now : ℕ)
      → Written t target e c
          (update_requested target now (record t { verifications = v ∷ t.verifications }) e)
  completing :
      (v : VerificationRow) (now : ℕ)
      → is_verification_of target.checkpoint_id v ≡ true
      → (c.milestone_key == "arrival") ≡ true
      → Written t target e c
          (completed_by target now (record t { verifications = v ∷ t.verifications }) e)
  moving :
      (v : VerificationRow) (now : ℕ)
      → is_verification_of target.checkpoint_id v ≡ true
      → (c.milestone_key == "arrival") ≡ false
      → Written t target e c
          (moved_on target c.ordinal now (record t { verifications = v ∷ t.verifications }) e)
  reassessing :
      (caller : Caller) (request : Request) (r : Reassessment) (today : Date) (now : ℕ)
      → Written t target e c (reassess_writes caller request target r today now t e)

pub data Effect (t : Timeline) : Timeline → Type 0 where
  begins :
      (caller : Caller) (request : Request) (execution : Uuid) (ids : ℕ → Uuid) (now : ℕ)
      → t.execution ≡ none
      → milestones_mismatch t.anchor.milestones ≡ false
      → IsFresh ids
      → Effect t (begun_with caller request execution ids now t)
  repeats : Effect t t
  writes :
      (target : Target) (e : TimelineExecution) (c : CheckpointRow) (w : Timeline)
      (name operation kind : String) (result : Uuid) (step : ℕ) (caller : Caller)
      (request : Request) (now : ℕ)
      → IsGated t target e c
      → Written t target e c w
      → Effect t (recorded name operation kind result step caller request target now w).0
