-- ===== src/TimelineAuthority/Effects.antt =====
-- Each call that succeeds, reduced to what it writes.
use night_voyager.Base.Equality.{◌==◌, ◌!=◌, nat_eq, string_eq, option_eq}
use night_voyager.Planning.Models.{Uuid}
use mathlib.Core.Path.{subst}
use night_voyager.Base.{
  Bool-cases, is_none, list_eq, ℕ, ◌≡◌, refl, ap, ◌∙◌, inl, inr, false, not, Option, none, some,
  ◌∷◌, arith,
}
use night_voyager.Base.Results.{Result, ok, err, ok-injective, if-err}
use night_voyager.Calendar.{Date, date_eq}
use night_voyager.TimelineExecution.Enums.{
  timeline_execution_state_eq, timeline_checkpoint_state_eq, timeline_risk_state_eq,
  checkpoint_attestation_kind_eq, checkpoint_status_code_eq, checkpoint_attestation_reason_code_eq,
  CheckpointVerificationAction, verify, request_update, checkpoint_verification_reason_code_eq,
}
use night_voyager.TimelineExecution.Models.{
  TimelineExecution, timeline_checkpoint_eq, timeline_activity_item_eq,
}
use night_voyager.TimelineAuthority.Rows.{
  CheckpointRow, VerificationRow, ReceiptRow, IdempotencyRow, Timeline, Caller, Request, Target,
  has_context,
}
use night_voyager.TimelineAuthority.Gate.{Outcome, repeated}
use night_voyager.TimelineAuthority.Start.{
  milestones_mismatch, start_repeated, start_new, start_unless, start_timeline_execution,
}
use night_voyager.TimelineAuthority.Attest.{
  Attestation, codes_conflict, attest_on, attest_timeline_checkpoint,
}
use night_voyager.TimelineAuthority.Verify.{
  Verification, verify_writes, verify_on, verify_timeline_checkpoint,
}
use night_voyager.TimelineAuthority.Reassess.{
  Reassessment, proof_is_missing, reassess_on, request_timeline_reassessment,
}
use night_voyager.TimelineAuthority.Passed.{IsGated, on_current-passes, repeated-same}
use night_voyager.TimelineAuthority.Steps.{
  IsFresh, Step, starts, attests, verifies, reassesses, is_verification_of, Written, attesting,
  returning, completing, moving, reassessing, Effect, begins, repeats, writes,
}

attest_on-Effect :
    (caller : Caller) (request : Request) (target : Target) (a : Attestation) (now : ℕ)
    (t : Timeline) (e : TimelineExecution) (c : CheckpointRow) {u : Timeline}
    {receipt : Option ReceiptRow}
    → IsGated t target e c
    → attest_on caller request target a now t e c ≡ ok (u, receipt)
    → Effect t u
unfolding attest_on
attest_on-Effect caller request target a now t e c g h =
    let (_, rest) = if-err {T = Outcome} _ _ _ h in
    let (_, done) = if-err {T = Outcome} (codes_conflict c.milestone_key a) _ _ rest in
    subst (Effect t) (ap (λ p. p.0) (ok-injective {T = Outcome} done))
      (writes target e c _ _ _ _ _ _ caller request now g (attesting caller request a now))

verify_writes-Written :
    (action : CheckpointVerificationAction) (target : Target) (now : ℕ) (t : Timeline)
    (v : VerificationRow) (e : TimelineExecution) (c : CheckpointRow)
    → v.action ≡ action
    → v.checkpoint_id ≡ target.checkpoint_id
    → Written t target e c
        (verify_writes action target now (record t { verifications = v ∷ t.verifications }) e c)
unfolding verify_writes is_verification_of
verify_writes-Written request_update target now t v e c asked about = returning v now
verify_writes-Written verify target now t v e c asked about =
    elim (Bool-cases (c.milestone_key == "arrival")) [
      | inl last ↦ rw last (completing v now (ground (arith, asked, about)) last)
      | inr early ↦ rw early (moving v now (ground (arith, asked, about)) early)
    ]

verify_on-Effect :
    (caller : Caller) (request : Request) (target : Target) (v : Verification) (now : ℕ)
    (t : Timeline) (e : TimelineExecution) (c : CheckpointRow) {u : Timeline}
    {receipt : Option ReceiptRow}
    → IsGated t target e c
    → verify_on caller request target v now t e c ≡ ok (u, receipt)
    → Effect t u
unfolding verify_on
verify_on-Effect caller request target v now t e c g h =
    let (_, done) = if-err {T = Outcome} _ _ _ h in
    subst (Effect t) (ap (λ p. p.0) (ok-injective {T = Outcome} done)) (
      writes target e c _ _ _ _ _ _ caller request now g
        (verify_writes-Written v.action target now t _ e c refl refl))

reassess_on-Effect :
    (caller : Caller) (request : Request) (target : Target) (r : Reassessment) (today : Date)
    (now : ℕ) (t : Timeline) (e : TimelineExecution) (c : CheckpointRow) {u : Timeline}
    {receipt : Option ReceiptRow}
    → IsGated t target e c
    → reassess_on caller request target r today now t e c ≡ ok (u, receipt)
    → Effect t u
unfolding reassess_on
reassess_on-Effect caller request target r today now t e c g h =
    let (_, rest) = if-err {T = Outcome} _ _ _ h in
    let (_, done) =
      if-err {T = Outcome} (proof_is_missing target r.trigger r.reference today t.attestations c) _
        _ rest in
    subst (Effect t) (ap (λ p. p.0) (ok-injective {T = Outcome} done))
      (writes target e c _ _ _ _ _ _ caller request now g (reassessing caller request r today now))

start_repeated-same :
    (t : Timeline) (r : Result Outcome) {u : Timeline} {receipt : Option ReceiptRow}
    → ((v : Timeline) (s : Option ReceiptRow) → r ≡ ok (v, s) → t ≡ v)
    → start_repeated r ≡ ok (u, receipt)
    → t ≡ u
unfolding start_repeated
start_repeated-same t (err code) same h = cc
start_repeated-same t (ok (v, none)) same h = cc
start_repeated-same t (ok (v, some s)) same h =
    same v (some s) refl ∙ ap (λ p. p.0) (ok-injective {T = Outcome} h)

is_none-none {ℓ} : {A : Type ℓ} (o : Option A) → not (is_none o) ≡ false → o ≡ none
is_none-none none h = refl
is_none-none (some a) h = cc

start_new-Effect :
    (caller : Caller) (request : Request) (timeline case_id : Uuid) (revision : ℕ)
    (execution : Uuid) (ids : ℕ → Uuid) (now : ℕ) (t : Timeline) {u : Timeline}
    {receipt : Option ReceiptRow}
    → IsFresh ids
    → start_new caller request timeline case_id revision execution ids now t ≡ ok (u, receipt)
    → Effect t u
unfolding start_new
start_new-Effect caller request timeline case_id revision execution ids now t fresh h =
    let (_, a) = if-err {T = Outcome} _ _ _ h in
    let (_, b) = if-err {T = Outcome} (t.anchor.case_id != case_id) _ _ a in
    let (_, c) = if-err {T = Outcome} (t.anchor.current_revision != revision) _ _ b in
    let (keys, d) = if-err {T = Outcome} (milestones_mismatch t.anchor.milestones) _ _ c in
    let (first, done) = if-err {T = Outcome} (not (is_none t.execution)) _ _ d in
    subst (Effect t) (ap (λ p. p.0) (ok-injective {T = Outcome} done))
      (begins caller request execution ids now (is_none-none t.execution first) keys fresh)

start_unless-Effect :
    (request : Request) (t : Timeline) (new : Result Outcome) (prior : Option IdempotencyRow)
    {u : Timeline} {receipt : Option ReceiptRow}
    → (new ≡ ok (u, receipt) → Effect t u)
    → start_unless request t new prior ≡ ok (u, receipt)
    → Effect t u
unfolding start_unless
start_unless-Effect request t new (some prior) fresh h =
    subst (Effect t)
      (start_repeated-same t (repeated "timeline_execution_started" request prior t)
        (λ v s e. repeated-same "timeline_execution_started" request prior t e) h)
      repeats
start_unless-Effect request t new none fresh h = fresh h

-- Every call that succeeds has one of the effects.
pub Step-Effect : {t u : Timeline} → Step t u → Effect t u
unfolding start_timeline_execution attest_timeline_checkpoint verify_timeline_checkpoint
    request_timeline_reassessment
Step-Effect {t} {u}
      (starts {receipt} caller request timeline case_id revision execution ids now fresh h) =
    let (_, rest) = if-err {T = Outcome} _ _ _ h in
    let (_, last) = if-err {T = Outcome} (not (has_context caller)) _ _ rest in
    start_unless-Effect request t _ _
      (start_new-Effect caller request timeline case_id revision execution ids now t fresh) last
Step-Effect {t} {u} (attests {receipt} caller request target a now h) =
    let (_, rest) = if-err {T = Outcome} _ _ _ h in
    elim (on_current-passes "timeline_checkpoint_attest" "timeline_checkpoint_attested" caller
      request target t (attest_on caller request target a now t) (u, receipt) rest) [
        | inl (prior, again) ↦
            subst (Effect t) (repeated-same "timeline_checkpoint_attested" request prior t again)
              repeats
        | inr (e, c, g, done) ↦ attest_on-Effect caller request target a now t e c g done
      ]
Step-Effect {t} {u} (verifies {receipt} caller request target v now h) =
    let (_, rest) = if-err {T = Outcome} _ _ _ h in
    elim (on_current-passes "timeline_checkpoint_verify" "timeline_checkpoint_verified" caller
      request target t (verify_on caller request target v now t) (u, receipt) rest) [
        | inl (prior, again) ↦
            subst (Effect t) (repeated-same "timeline_checkpoint_verified" request prior t again)
              repeats
        | inr (e, c, g, done) ↦ verify_on-Effect caller request target v now t e c g done
      ]
Step-Effect {t} {u} (reassesses {receipt} caller request target r today now h) =
    let (_, rest) = if-err {T = Outcome} _ _ _ h in
    elim (on_current-passes "timeline_reassessment_request" "timeline_reassessment_requested" caller
      request target t (reassess_on caller request target r today now t) (u, receipt) rest) [
        | inl (prior, again) ↦
            subst (Effect t) (repeated-same "timeline_reassessment_requested" request prior t again)
              repeats
        | inr (e, c, g, done) ↦ reassess_on-Effect caller request target r today now t e c g done
      ]
