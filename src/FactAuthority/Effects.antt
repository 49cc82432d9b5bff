-- ===== src/FactAuthority/Effects.antt =====
-- What a call that succeeds may write.
use mathlib.Core.Path.{subst}
use night_voyager.Base.{
  ltb, if◌then◌else◌, ◌==◌, ◌!=◌, nat_eq, string_eq, eq_of_bne, option_eq, any, find_first,
  count_if, list_eq, ℕ, ◌≡◌, refl, sym, ap, ◌∙◌, ◌⊎◌, inl, inr, Bool, false, not, ◌||◌, Option,
  none, some, arith,
}
use night_voyager.Base.Results.{ok, bind-eq-ok, ok-injective, raise_if-then}
use night_voyager.Planning.Enums.{
  evidence_authority_eq, evidence_class_eq, redistribution_class_eq, country_eq, route_outcome_eq,
  run_state_eq, case_state_eq,
}
use night_voyager.Planning.Models.{Uuid}
use night_voyager.Collaboration.Models.{
  fact_key_eq, memory_candidate_state_eq, VerificationDecision, verification_decision_eq,
  fact_key_of,
}
use night_voyager.TimelineAuthority.Rows.{IdempotencyRow, Caller, is_participant}
use night_voyager.FactAuthority.Rows.{
  CandidateRow, CandidateVerification, CaseRevisionRow, CaseRun, CaseFacts,
  has_collaboration_context,
}
use night_voyager.FactAuthority.Propose.{is_verification_of_candidate}
use night_voyager.FactAuthority.Blocks.{current_run, check_publication}
use night_voyager.FactAuthority.Verify.{
  Verifying, Verified, is_verifying_invalid, check_intake, verification_row_of, rejected_by,
}
use night_voyager.FactAuthority.Confirm.{
  Checks, advisor_of, is_revision, publish, confirm_with, decide_candidate, check_candidate,
  verify_found, verify_answered, verify_unless, verify_memory_candidate,
}
use night_voyager.FactAuthority.Steps.{IsUnused, Step, proposes, verifies, others}
use night_voyager.FactAuthority.Proposals.{
  Effect, keeps, rejects, confirms, keep_all, propose-Keeps,
}

-- What the tests of a candidate leave.
abbrev IsPassed : Verifying → CaseFacts → Type 0
IsPassed v t =
    (any (is_verification_of_candidate v.candidate) t.verifications ≡ false)
    × (t.current_revision ≡ some v.expected_revision)

check_candidate-ok :
    (checks : Checks) (caller : Caller) (v : Verifying) (c : CandidateRow) (now : ℕ) (t : CaseFacts)
    → check_candidate checks caller v c now t ≡ ok tt
    → IsPassed v t
unfolding check_candidate
check_candidate-ok checks caller v c now t h =
    let (_, a) =
      raise_if-then {T = Unit {0}} (ltb 1 (count_if CaseRun.is_current t.runs)) "P0001" _ h in
    let (_, b) =
      raise_if-then {T = Unit {0}}
        (not (any (is_participant t.case_id caller.actor "advisor") t.participants)) "NV007" _ a in
    let (open_here, d) =
      raise_if-then {T = Unit {0}} (any (is_verification_of_candidate v.candidate) t.verifications)
        "NV012" _ b in
    let (same, _) =
      raise_if-then {T = Unit {0}}
        ((c.case_revision != v.expected_revision)
          || (t.current_revision != some v.expected_revision))
        "NV003" _ d in
    let kept : (t.current_revision != some v.expected_revision) ≡ false = ground (arith, same) in
    (open_here, eq_of_bne kept)

-- A verification.
module _ (checks : Checks) (caller : Caller) (v : Verifying) (now : ℕ) (t : CaseFacts)
    (unused : (fact : Uuid) → v.fact ≡ some fact → IsUnused fact t) where
  publish-Effect :
      (fact : Uuid) (c : CandidateRow) (found : Option CaseRevisionRow) {u : CaseFacts}
      {answer : CandidateVerification × Bool}
      → find_first (is_revision v.expected_revision) t.revisions ≡ found
      → IsPassed v t
      → v.decision ≡ VerificationDecision.confirm
      → IsUnused fact t
      → publish checks caller v fact c now t found ≡ ok (u, answer)
      → Effect t u
  unfolding publish
  publish-Effect fact c none at passed confirming free h = cc
  publish-Effect fact c (some row) at (open_here, same) confirming free h =
      let (_, a) = raise_if-then {T = Verified} _ _ _ h in
      let (_, _, e) =
        bind-eq-ok {T = Verified}
          (check_intake checks.baseline_pack checks.source row.content (current_run t)
            c.proposed_value)
          _ a in
      subst (Effect t) (ap (λ x. x.0) (ok-injective {T = Verified} e))
        (confirms caller v fact c row now open_here confirming same at free)

  confirm_with-Effect :
      (c : CandidateRow) (fact : Option Uuid) {u : CaseFacts}
      {answer : CandidateVerification × Bool}
      → v.fact ≡ fact
      → IsPassed v t
      → v.decision ≡ VerificationDecision.confirm
      → confirm_with checks caller v c now t fact ≡ ok (u, answer)
      → Effect t u
  unfolding confirm_with
  confirm_with-Effect c none named passed confirming h = cc
  confirm_with-Effect c (some fact) named passed confirming h =
      let (_, _, e) =
        bind-eq-ok {T = Verified}
          (check_publication v.expected_revision (fact_key_of c.proposed_value) t) _ h in
      publish-Effect fact c _ refl passed confirming (unused fact named) e

  decide_candidate-Effect :
      (c : CandidateRow) {u : CaseFacts} {answer : CandidateVerification × Bool}
      → IsPassed v t
      → decide_candidate checks caller v c now t ≡ ok (u, answer)
      → Effect t u
  unfolding decide_candidate
  decide_candidate-Effect c passed h = elim (decisions v.decision) [
    | inl rejecting ↦
        subst (Effect t)
          (ap (λ x. x.0)
            (ok-injective {T = Verified} (
              ap
                (λ d.
                  if d == VerificationDecision.reject
                  then ok
                      (rejected_by caller v now t, (verification_row_of caller v none none, false))
                  else confirm_with checks caller v c now t v.fact)
                (sym rejecting)
              ∙ h)))
          (rejects caller v now passed.0 rejecting)
    | inr confirming ↦ confirm_with-Effect c v.fact refl passed confirming (
        ap
          (λ d.
            if d == VerificationDecision.reject
            then ok (rejected_by caller v now t, (verification_row_of caller v none none, false))
            else confirm_with checks caller v c now t v.fact)
          (sym confirming)
        ∙ h)
  ]
    where
      decisions :
          (d : VerificationDecision)
          → (d ≡ VerificationDecision.reject) ⊎ (d ≡ VerificationDecision.confirm)
      decisions VerificationDecision.reject = inl refl
      decisions VerificationDecision.confirm = inr refl

  found-Effect :
      (found : Option CandidateRow) {u : CaseFacts} {answer : CandidateVerification × Bool}
      → verify_found checks caller v now t found ≡ ok (u, answer)
      → Effect t u
  unfolding verify_found
  found-Effect none h = cc
  found-Effect (some c) h =
      let (nothing, passed, e) =
        bind-eq-ok {T = Verified} (check_candidate checks caller v c now t) _ h in
      decide_candidate-Effect c (check_candidate-ok checks caller v c now t passed) e

  answered-Effect :
      (found : Option CandidateVerification) {u : CaseFacts} {answer : CandidateVerification × Bool}
      → verify_answered t found ≡ ok (u, answer)
      → Effect t u
  unfolding verify_answered
  answered-Effect none h = cc
  answered-Effect (some existing) h =
      subst (Effect t) (ap (λ x. x.0) (ok-injective {T = Verified} h)) (keeps (keep_all t))

  verify_unless-Effect :
      (prior : Option IdempotencyRow) {u : CaseFacts} {answer : CandidateVerification × Bool}
      → verify_unless checks caller v now t prior ≡ ok (u, answer)
      → Effect t u
  unfolding verify_unless
  verify_unless-Effect none h = found-Effect _ h
  verify_unless-Effect (some prior) h =
      let (_, e) =
        raise_if-then {T = Verified}
          ((prior.request_sha256 != v.request_sha256)
            || (prior.response_kind != "memory_candidate_verification"))
          "NV008" _ h in
      answered-Effect _ e

pub Step-Effect : {t u : CaseFacts} → Step t u → Effect t u
unfolding verify_memory_candidate
Step-Effect {t} (proposes unsafe caller p now h) = keeps (propose-Keeps unsafe caller p now t h)
Step-Effect {t} (verifies checks actor session v now unused h) =
    let caller = advisor_of actor session in
    let (_, a) =
      raise_if-then {T = Verified} (is_verifying_invalid checks.unsafe_reason v) "NV006" _ h in
    let (_, e) =
      raise_if-then {T = Verified} (not (has_collaboration_context caller)) "NV007" _ a in
    verify_unless-Effect checks caller v now t unused _ e
Step-Effect (others kept) = keeps kept
