-- ===== src/FactAuthority/Verify.antt =====
-- `verify_memory_candidate` of migrations/versions/0017_controlled_intake_revision.py. `source` is the
-- outcome of `assert_controlled_intake_source`, which reads a source pack.
use night_voyager.Base.{
  if◌then◌else◌, is_none, ◌==◌, ◌!=◌, nat_eq, string_eq, option_eq, any, select, find_first,
  list_eq, ℕ, ◌+◌, String, Bool, false, not, ◌&&◌, ◌||◌, Option, none, some, List, [], ◌∷◌, ◌++◌,
  map,
}
use night_voyager.Base.Results.{Result, ok, raise_if, ◌>>◌}
use night_voyager.Planning.Enums.{
  evidence_authority_eq, evidence_class_eq, redistribution_class_eq, country_eq, route_outcome_eq,
  run_state_eq, case_state_eq,
}
use night_voyager.Planning.Models.{Uuid, StudentPreferences, FamilyPreferences, StudentCaseRevision}
use night_voyager.Collaboration.Models.{
  FactKey, fact_key_eq, memory_candidate_state_eq, VerificationDecision, confirm,
  verification_decision_eq, FactProposal, intended_field_proposal, preferred_countries_proposal,
  intake_proposal, risk_tolerance_proposal, japan_risk_accepted_proposal, budget_proposal,
  fact_key_of,
}
use night_voyager.Leases.Calls.{is_sha256}
use night_voyager.TimelineAuthority.Rows.{IdempotencyRow, Caller}
use night_voyager.FactAuthority.Rows.{
  CandidateRow, CandidateVerification, FactRow, FactRefRow, CaseRun, ReviewRow, AuditRow, CaseFacts,
  key_of,
}
use night_voyager.FactAuthority.Values.{is_value_unsafe}
use night_voyager.FactAuthority.Blocks.{request_review, current_run}

-- The parameters of the call.
pub record Verifying : Type 0 where
  pub candidate : Uuid
  pub expected_revision : ℕ
  pub decision : VerificationDecision
  pub reason : String
  pub verification : Uuid
  pub fact : Option Uuid
  pub request_sha256 : String
  pub key_sha256 : String

-- What a call leaves and what it returns; `true` for an earlier answer.
abbrev pub Verified : Type 0
Verified = CaseFacts × (CandidateVerification × Bool)

-- `unsafe` is the test of the length and of the regular expressions on the reason.
unfoldable pub is_verifying_invalid : (String → Bool) → Verifying → Bool
is_verifying_invalid unsafe v =
    (v.expected_revision == 0)
    || (unsafe v.reason
        || ((not (is_sha256 v.request_sha256) || not (is_sha256 v.key_sha256))
            || (if v.decision == confirm then is_none v.fact else not (is_none v.fact))))

-- `successor.supersedes_fact_id=fact.id`, of the same key
unfoldable pub is_successor_fact : FactRow → FactRow → Bool
is_successor_fact f successor =
    (key_of successor == key_of f) && (successor.supersedes_fact_id == some f.id)

-- A fact that no fact supersedes.
unfoldable pub is_head : List FactRow → FactRow → Bool
is_head facts f = not (any (is_successor_fact f) facts)

-- `prior_fact`
unfoldable pub prior_fact : FactKey → List FactRow → Option FactRow
prior_fact key facts = find_first (λ f. (key_of f == key) && is_head facts f) facts

abbrev pub id_of_fact : Option FactRow → Option Uuid
id_of_fact none = none
id_of_fact (some f) = some f.id

-- `COALESCE(prior_fact.fact_version,0)`
abbrev pub version_of_fact : Option FactRow → ℕ
version_of_fact none = 0
version_of_fact (some f) = f.fact_version

-- `jsonb_set` on the preferences of the student
unfoldable pub next_student : FactProposal → StudentPreferences → StudentPreferences
next_student (intended_field_proposal value) s = record s { intended_field = value }
next_student (preferred_countries_proposal value) s = record s { preferred_countries = value }
next_student (intake_proposal value) s = record s { intake = value }
next_student (risk_tolerance_proposal value) s = s
next_student (japan_risk_accepted_proposal value) s = s
next_student (budget_proposal value) s = s

-- `jsonb_set` on those of the family
unfoldable pub next_family : FactProposal → FamilyPreferences → FamilyPreferences
next_family (risk_tolerance_proposal value) f = record f { risk_tolerance = value }
next_family (japan_risk_accepted_proposal value) f = record f { japan_risk_accepted = value }
next_family (budget_proposal value) f = record f { budget = value }
next_family (intended_field_proposal value) f = f
next_family (preferred_countries_proposal value) f = f
next_family (intake_proposal value) f = f

-- The tests before 'unsafe Case revision projection' and on each of the preferences.
unfoldable pub is_projection_unsafe : (String → Bool) → StudentCaseRevision → Bool
is_projection_unsafe unsafe r =
    (r.student.schema_version != 1)
    || ((r.family.schema_version != 1)
        || any (is_value_unsafe unsafe) (
            intended_field_proposal r.student.intended_field
            ∷ preferred_countries_proposal r.student.preferred_countries
            ∷ intake_proposal r.student.intake
            ∷ risk_tolerance_proposal r.family.risk_tolerance
            ∷ japan_risk_accepted_proposal r.family.japan_risk_accepted
            ∷ budget_proposal r.family.budget
            ∷ []))

-- The pins of the synthetic baseline; `pack` is its identity.
abbrev is_baseline : Uuid → CaseRun → Bool
is_baseline pack run =
    (run.source_pack_id == pack)
    && ((run.source_pack_version == 1) && (run.policy_version == "m3a-policy-v1"))

-- The tests on a new intake of a case that was planned.
unfoldable pub check_intake :
    Uuid
    → Result (Unit {0})
    → StudentCaseRevision
    → Option CaseRun
    → FactProposal
    → Result (Unit {0})
check_intake pack source r (some run) (intake_proposal value) =
    raise_if (value == r.student.intake) "NV006"
    >> (raise_if
          ((r.student.intake != "2027-02") || ((value != "2028-02") || not (is_baseline pack run)))
          "NV027"
        >> source)
check_intake pack source r _ _ = ok tt

abbrev pub verification_row_of : Caller → Verifying → Option Uuid → Option ℕ → CandidateVerification
verification_row_of caller v fact revision = record {
  id = v.verification;
  candidate_id = v.candidate;
  advisor_actor_id = caller.actor;
  decision = v.decision;
  reason = v.reason;
  request_sha256 = v.request_sha256;
  result_fact_id = fact;
  result_revision = revision;
}

abbrev verify_record : Caller → Verifying → ℕ → IdempotencyRow
verify_record caller v now = record {
  actor_id = caller.actor;
  operation = "memory_candidate_verify";
  key_sha256 = v.key_sha256;
  request_sha256 = v.request_sha256;
  response_kind = "memory_candidate_verification";
  response_id = v.verification;
  created_at = now;
}

abbrev audit_row : Caller → Verifying → String → AuditRow
audit_row caller v event = record {
  actor_id = caller.actor;
  event_type = event;
  subject_id = v.verification;
}

-- The writes of a rejection.
unfoldable pub rejected_by : Caller → Verifying → ℕ → CaseFacts → CaseFacts
rejected_by caller v now t = record t {
  verifications = verification_row_of caller v none none ∷ t.verifications;
  audit = audit_row caller v "memory_candidate_rejected" ∷ t.audit;
  idempotency = verify_record caller v now ∷ t.idempotency;
}

abbrev pub fact_row : Caller → Verifying → Uuid → CandidateRow → Option FactRow → FactRow
fact_row caller v fact c prior = record {
  id = fact;
  value = c.proposed_value;
  value_sha256 = c.value_sha256;
  source_candidate_id = v.candidate;
  source_message_event_id = c.message_event_id;
  subject_actor_id = c.subject_actor_id;
  subject_role = c.subject_role;
  confirming_advisor_actor_id = caller.actor;
  supersedes_fact_id = id_of_fact prior;
  fact_version = version_of_fact prior + 1;
}

-- `INSERT INTO app.student_case_revisions`
abbrev pub next_revision : Verifying → CandidateRow → StudentCaseRevision → StudentCaseRevision
next_revision v c r = record {
  schema_version = 1;
  organization_id = r.organization_id;
  case_id = r.case_id;
  revision = v.expected_revision + 1;
  student = next_student c.proposed_value r.student;
  family = next_family c.proposed_value r.family;
}

abbrev pub ref_of : ℕ → FactRow → FactRefRow
ref_of revision f = record {
  case_revision = revision;
  fact_key = key_of f;
  confirmed_fact_id = f.id;
}

-- The references of a revision: the facts that none supersedes, but for the new key.
unfoldable pub kept_refs : ℕ → FactKey → List FactRow → List FactRefRow
kept_refs revision key facts =
    map (ref_of revision) (select (λ f. (key_of f != key) && is_head facts f) facts)

abbrev id_of_review : Option ReviewRow → Option Uuid
id_of_review none = none
id_of_review (some r) = some r.id

abbrev id_of_run : Option CaseRun → Option Uuid
id_of_run none = none
id_of_run (some r) = some r.id

-- `SET is_current=false`
unfoldable pub retire : Option CaseRun → List CaseRun → List CaseRun
retire none runs = runs
retire (some run) runs =
    map (λ r. if r.id == run.id then record r { is_current = false } else r) runs

-- The writes of a confirmation. The two `UPDATE`s find their rows, which are locked.
unfoldable pub confirmed_by :
    Caller → Verifying → Uuid → CandidateRow → StudentCaseRevision → ℕ → CaseFacts → CaseFacts
confirmed_by caller v fact c r now t =
    let key = fact_key_of c.proposed_value in
    let row = fact_row caller v fact c (prior_fact key t.facts) in
    let next = v.expected_revision + 1 in
    record t {
      current_revision = some next;
      verifications = verification_row_of caller v (some fact) (some next) ∷ t.verifications;
      facts = row ∷ t.facts;
      refs = ref_of next row ∷ kept_refs next key (row ∷ t.facts) ++ t.refs;
      revisions =
          record {
            content = next_revision v c r;
            revision_requested_by_review_id =
                id_of_review (request_review v.expected_revision (current_run t) t.reviews);
            superseded_planning_run_id = id_of_run (current_run t);
          }
          ∷ t.revisions;
      runs = retire (current_run t) t.runs;
      audit = audit_row caller v "memory_candidate_confirmed" ∷ t.audit;
      idempotency = verify_record caller v now ∷ t.idempotency;
    }
