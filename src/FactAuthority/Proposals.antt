-- ===== src/FactAuthority/Proposals.antt =====
-- What a call that succeeds may write, and that a proposal writes none of it.
use mathlib.Core.Path.{subst}
use night_voyager.Base.{
  ◌==◌, ◌!=◌, nat_eq, string_eq, option_eq, any, find_first, list_eq, ℕ, String, ◌≡◌, refl, ap,
  Bool, false, not, ◌||◌, Option, none, some,
}
use night_voyager.Base.Results.{ok, ok-injective, raise_if-then}
use night_voyager.Planning.Enums.{
  evidence_authority_eq, evidence_class_eq, redistribution_class_eq, country_eq, route_outcome_eq,
  run_state_eq, case_state_eq,
}
use night_voyager.Planning.Models.{Uuid}
use night_voyager.Collaboration.Models.{
  fact_key_eq, MemoryCandidateState, memory_candidate_state_eq, VerificationDecision,
  verification_decision_eq,
}
use night_voyager.TimelineAuthority.Rows.{IdempotencyRow, Caller, is_participant}
use night_voyager.FactAuthority.Rows.{
  CandidateRow, CaseRevisionRow, CaseFacts, has_collaboration_context,
}
use night_voyager.FactAuthority.Values.{is_fact_refused}
use night_voyager.FactAuthority.Propose.{
  Proposal, Proposed, is_proposal_invalid, is_verification_of_candidate, is_other_proposal,
  proposal_repeated, proposal_recorded, proposal_on, is_own_message, proposal_new, proposal_unless,
  propose_memory_candidate,
}
use night_voyager.FactAuthority.Verify.{Verifying, rejected_by, confirmed_by}
use night_voyager.FactAuthority.Confirm.{is_revision}
use night_voyager.FactAuthority.Steps.{Keeps, IsUnused}

pub data Effect (t : CaseFacts) : CaseFacts → Type 0 where
  keeps : {u : CaseFacts} → Keeps t u → Effect t u
  rejects :
      (caller : Caller) (v : Verifying) (now : ℕ)
      → any (is_verification_of_candidate v.candidate) t.verifications ≡ false
      → v.decision ≡ VerificationDecision.reject
      → Effect t (rejected_by caller v now t)
  confirms :
      (caller : Caller) (v : Verifying) (fact : Uuid) (c : CandidateRow) (row : CaseRevisionRow)
      (now : ℕ)
      → any (is_verification_of_candidate v.candidate) t.verifications ≡ false
      → v.decision ≡ VerificationDecision.confirm
      → t.current_revision ≡ some v.expected_revision
      → find_first (is_revision v.expected_revision) t.revisions ≡ some row
      → IsUnused fact t
      → Effect t (confirmed_by caller v fact c row.content now t)

pub keep_all : (t : CaseFacts) → Keeps t t
keep_all t = record {
  current = refl;
  revisions = refl;
  facts = refl;
  refs = refl;
  verifications = refl;
}

-- A proposal.
proposal_on-Keeps :
    (caller : Caller) (p : Proposal) (now : ℕ) (t : CaseFacts) (found : Option CandidateRow)
    {u : CaseFacts} {answer : CandidateRow × (MemoryCandidateState × Bool)}
    → proposal_on caller p now t found ≡ ok (u, answer)
    → Keeps t u
unfolding proposal_on proposal_recorded
proposal_on-Keeps caller p now t (some c) h =
    let (_, e) = raise_if-then {T = Proposed} (is_other_proposal caller p c) "NV008" _ h in
    subst (Keeps t) (ap (λ x. x.0) (ok-injective {T = Proposed} e))
      (record { current = refl; revisions = refl; facts = refl; refs = refl; verifications = refl })
proposal_on-Keeps caller p now t none h =
    subst (Keeps t) (ap (λ x. x.0) (ok-injective {T = Proposed} h))
      (record { current = refl; revisions = refl; facts = refl; refs = refl; verifications = refl })

proposal_repeated-Keeps :
    (p : Proposal) (prior : IdempotencyRow) (now : ℕ) (t : CaseFacts) (found : Option CandidateRow)
    {u : CaseFacts} {answer : CandidateRow × (MemoryCandidateState × Bool)}
    → proposal_repeated p prior now t found ≡ ok (u, answer)
    → Keeps t u
unfolding proposal_repeated
proposal_repeated-Keeps p prior now t none h = cc
proposal_repeated-Keeps p prior now t (some c) h =
    subst (Keeps t) (ap (λ x. x.0) (ok-injective {T = Proposed} h)) (keep_all t)

proposal_unless-Keeps :
    (caller : Caller) (p : Proposal) (now : ℕ) (t : CaseFacts) (prior : Option IdempotencyRow)
    {u : CaseFacts} {answer : CandidateRow × (MemoryCandidateState × Bool)}
    → proposal_unless caller p now t prior ≡ ok (u, answer)
    → Keeps t u
unfolding proposal_unless proposal_new
proposal_unless-Keeps caller p now t none h =
    let (_, a) =
      raise_if-then {T = Proposed}
        (not (is_own_message caller (find_first (λ m. m.id == p.message) t.messages))
          || not ((caller.role == "student") || (caller.role == "parent")))
        "NV007" _ h in
    let (_, b) =
      raise_if-then {T = Proposed} (t.current_revision != some p.case_revision) "NV003" _ a in
    let (_, e) =
      raise_if-then {T = Proposed}
        (not (any (is_participant t.case_id caller.actor caller.role) t.participants)) "NV007" _
        b in
    proposal_on-Keeps caller p now t _ e
proposal_unless-Keeps caller p now t (some prior) h =
    let (_, e) =
      raise_if-then {T = Proposed}
        ((prior.request_sha256 != p.request_sha256) || (prior.response_kind != "memory_candidate"))
        "NV008" _ h in
    proposal_repeated-Keeps p prior now t _ e

pub propose-Keeps :
    (unsafe : String → Bool) (caller : Caller) (p : Proposal) (now : ℕ) (t : CaseFacts)
    {u : CaseFacts} {answer : CandidateRow × (MemoryCandidateState × Bool)}
    → propose_memory_candidate unsafe caller p now t ≡ ok (u, answer)
    → Keeps t u
unfolding propose_memory_candidate
propose-Keeps unsafe caller p now t h =
    let (_, a) = raise_if-then {T = Proposed} (is_proposal_invalid p) "NV006" _ h in
    let (_, b) =
      raise_if-then {T = Proposed} (not (has_collaboration_context caller)) "NV007" _ a in
    let (_, e) =
      raise_if-then {T = Proposed} (is_fact_refused unsafe caller.role p.value) "NV006" _ b in
    proposal_unless-Keeps caller p now t _ e
