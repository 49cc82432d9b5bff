-- ===== src/Tests/FactAuthority.antt =====
-- A case whose student proposes an intake, which the advisor confirms.
use night_voyager.Base.{String, ◌≡◌, refl, Bool, true, false, none, some, [], ◌∷◌, map}
use night_voyager.Base.Results.{Result, ok, err}
use night_voyager.Planning.Enums.{australia, CaseState, RiskTolerance}
use night_voyager.Planning.Models.{BudgetEnvelope, StudentCaseRevision}
use night_voyager.Collaboration.Models.{MemoryCandidateState, VerificationDecision, intake_proposal}
use night_voyager.Leases.Calls.{is_sha256}
use night_voyager.TimelineAuthority.Rows.{Caller, has_context, is_participant}
use night_voyager.TimelineAuthority.Gate.{is_prior}
use night_voyager.FactAuthority.Rows.{CandidateRow, CaseFacts, has_collaboration_context}
use night_voyager.FactAuthority.Values.{
  is_unsupported, are_countries_unsafe, is_intake_unsafe, is_budget_unsafe, is_value_unsafe,
  is_fact_refused,
}
use night_voyager.FactAuthority.Propose.{
  Proposal, Proposed, is_proposal_invalid, projected_state, proposal_recorded, proposal_on,
  proposal_new, proposal_unless, propose_memory_candidate,
}
use night_voyager.FactAuthority.Blocks.{request_review, check_run, current_run, check_publication}
use night_voyager.FactAuthority.Verify.{
  Verifying, Verified, is_verifying_invalid, is_head, prior_fact, next_student, next_family,
  is_projection_unsafe, check_intake, verification_row_of, kept_refs, retire, confirmed_by,
}
use night_voyager.FactAuthority.Confirm.{
  Checks, publish, confirm_with, decide_candidate, check_candidate, verify_found, verify_unless,
  verify_memory_candidate,
}
use night_voyager.FactAuthority.Steps.{proposes, verifies, IsFirst, Reach, initial, next}
use night_voyager.FactAuthority.Invariant.{IsReplayed, Reach-IsReplayed}

abbrev no_limit : BudgetEnvelope
no_limit = record {
  schema_version = 1;
  currency = "CNY";
  period = "program_total";
  preferred_minor = none;
  hard_ceiling_minor = none;
  elasticity_bps = 0;
  refused = true;
}

abbrev first_revision : StudentCaseRevision
first_revision = record {
  schema_version = 1;
  organization_id = 9;
  case_id = 43;
  revision = 1;
  student = record {
    schema_version = 1;
    intended_field = "physics";
    preferred_countries = australia ∷ [];
    intake = "2027-02";
  };
  family = record {
    schema_version = 1;
    risk_tolerance = RiskTolerance.low;
    japan_risk_accepted = false;
    budget = no_limit;
  };
}

abbrev digest : String
digest = "0123456789abcdef0123456789abcdef0123456789abcdef0123456789abcdef"

abbrev before : CaseFacts
before = record {
  organization_id = 9;
  case_id = 43;
  state = CaseState.intake;
  current_revision = some 1;
  participants =
      record { case_id = 43; actor_id = 1; role = "student" }
      ∷ record { case_id = 43; actor_id = 2; role = "advisor" }
      ∷ [];
  messages = record { id = 11; actor_id = 1; actor_role = "student" } ∷ [];
  candidates = [];
  verifications = [];
  facts = [];
  refs = [];
  revisions =
      record {
        content = first_revision;
        revision_requested_by_review_id = none;
        superseded_planning_run_id = none;
      }
      ∷ [];
  runs = [];
  reviews = [];
  tasks = [];
  is_decided = false;
  audit = [];
  idempotency = [];
}

abbrev safe : String → Bool
safe _ = false

abbrev student : Caller
student = record {
  actor = 1;
  role = "student";
  session_actor = some 1;
  session_role = some "student";
}

abbrev session : Caller
session = record {
  actor = 2;
  role = "advisor";
  session_actor = some 2;
  session_role = some "advisor";
}

abbrev later_intake : Proposal
later_intake = record {
  message = 11;
  candidate = 21;
  case_revision = 1;
  value = intake_proposal "2028-02";
  value_sha256 = digest;
  request_sha256 = digest;
  key_sha256 = digest;
}

abbrev checks : Checks
checks = record {
  unsafe_reason = safe;
  unsafe_value = safe;
  baseline_pack = 50;
  source = err "NV027";
}

abbrev accepting : Verifying
accepting = record {
  candidate = 21;
  expected_revision = 1;
  decision = VerificationDecision.confirm;
  reason = "confirmed with the family";
  verification = 31;
  fact = some 41;
  request_sha256 = digest;
  key_sha256 = digest;
}

abbrev proposing : Result Proposed
proposing = propose_memory_candidate safe student later_intake 1000 before

abbrev facts_after : Result Proposed → CaseFacts
facts_after (ok (t, _)) = t
facts_after (err _) = before

abbrev answer_of : Result Proposed → CandidateRow × (MemoryCandidateState × Bool)
answer_of (ok (_, a)) = a
answer_of (err _) = (
  record {
    id = 0;
    case_revision = 0;
    message_event_id = 0;
    subject_actor_id = 0;
    subject_role = "";
    proposing_actor_id = 0;
    proposing_role = "";
    proposed_value = intake_proposal "";
    value_sha256 = "";
    request_sha256 = "";
    created_at = 0;
    expires_at = 0;
  },
  (MemoryCandidateState.stale, false),
)

proposing_ok : proposing ≡ ok (facts_after proposing, answer_of proposing)
unfolding propose_memory_candidate is_proposal_invalid is_sha256 has_collaboration_context
    has_context is_fact_refused is_unsupported is_value_unsafe is_intake_unsafe proposal_unless
    is_prior proposal_new is_participant proposal_on proposal_recorded projected_state
proposing_ok = refl

abbrev confirming : Result Verified
confirming = verify_memory_candidate checks 2 session accepting 2000 (facts_after proposing)

abbrev facts_at : Result Verified → CaseFacts
facts_at (ok (t, _)) = t
facts_at (err _) = before

confirming_ok :
    confirming
    ≡ ok (facts_at confirming, (verification_row_of session accepting (some 41) (some 2), false))
unfolding propose_memory_candidate is_proposal_invalid is_sha256 has_collaboration_context
    has_context is_fact_refused is_unsupported is_value_unsafe is_intake_unsafe proposal_unless
    is_prior proposal_new is_participant proposal_on proposal_recorded projected_state
    verify_memory_candidate is_verifying_invalid verify_unless verify_found check_candidate
    decide_candidate confirm_with check_publication current_run check_run publish
    is_projection_unsafe are_countries_unsafe is_budget_unsafe check_intake confirmed_by prior_fact
    is_head next_student next_family kept_refs request_review retire
confirming_ok = refl

before-IsFirst : IsFirst first_revision before
before-IsFirst = record {
  current = refl;
  revisions = refl;
  facts = refl;
  refs = refl;
  verifications = refl;
  version = refl;
}

reached : Reach first_revision (facts_at confirming)
unfolding propose_memory_candidate is_proposal_invalid is_sha256 has_collaboration_context
    has_context is_fact_refused is_unsupported is_value_unsafe is_intake_unsafe proposal_unless
    is_prior proposal_new is_participant proposal_on proposal_recorded projected_state
reached =
    next (next (initial before-IsFirst) (proposes safe student later_intake 1000 proposing_ok))
      (verifies checks 2 session accepting 2000 (λ fact same. refl) confirming_ok)

Reach-IsReplayed_example : IsReplayed first_revision (facts_at confirming)
Reach-IsReplayed_example = Reach-IsReplayed reached

confirmed_intake :
    map (λ r. r.content.student.intake) (facts_at confirming).revisions ≡ "2028-02" ∷ "2027-02" ∷ []
unfolding propose_memory_candidate is_proposal_invalid is_sha256 has_collaboration_context
    has_context is_fact_refused is_unsupported is_value_unsafe is_intake_unsafe proposal_unless
    is_prior proposal_new is_participant proposal_on proposal_recorded projected_state
    verify_memory_candidate is_verifying_invalid verify_unless verify_found check_candidate
    decide_candidate confirm_with check_publication current_run check_run publish
    is_projection_unsafe are_countries_unsafe is_budget_unsafe check_intake confirmed_by prior_fact
    is_head next_student next_family kept_refs request_review retire
confirmed_intake = refl
