-- ===== src/Collaboration/Policy.antt =====
-- collaboration/policy.py: who may state a fact, and what a confirmed fact changes.
use night_voyager.Base.{
  leb, if◌then◌else◌, ◌==◌, ◌!=◌, nat_eq, string_eq, option_eq, contains, list_eq, ℕ, ◌+◌, String,
  Bool, false, Option, none, some, List, [], ◌∷◌,
}
use night_voyager.Identity.{ActorRole, actor_role_eq, permission_eq, role_of}
use night_voyager.Planning.Enums.{
  evidence_authority_eq, evidence_class_eq, redistribution_class_eq, country_eq, route_outcome_eq,
  run_state_eq, case_state_eq,
}
use night_voyager.Planning.Models.{StudentPreferences, FamilyPreferences, StudentCaseRevision}
use night_voyager.Collaboration.Models.{
  FactKey, student_intended_field, student_preferred_countries, student_intake,
  family_risk_tolerance, family_japan_risk_accepted, family_budget, fact_key_eq, fact_key_named,
  MemoryCandidateState, pending, stale, expired, confirmed, rejected, memory_candidate_state_eq,
  VerificationDecision, confirm, reject, verification_decision_eq, FactProposal,
  intended_field_proposal, preferred_countries_proposal, intake_proposal, risk_tolerance_proposal,
  japan_risk_accepted_proposal, budget_proposal,
}

-- `_ROLE_FACTS`
abbrev pub role_facts : ActorRole → List FactKey
role_facts ActorRole.advisor = []
role_facts ActorRole.student =
    student_intended_field ∷ student_preferred_countries ∷ student_intake ∷ []
role_facts ActorRole.parent =
    family_risk_tolerance ∷ family_japan_risk_accepted ∷ family_budget ∷ []

unfoldable pub role_allows_fact : String → String → Bool
role_allows_fact role fact_key = elim (role_of role) [
  | none ↦ false
  | some parsed_role ↦ elim (fact_key_named fact_key) [
    | none ↦ false
    | some parsed_fact_key ↦ contains parsed_fact_key (role_facts parsed_role)
  ]
]

-- A moment is a number.
unfoldable pub project_candidate_state :
    Option VerificationDecision → ℕ → ℕ → ℕ → ℕ → MemoryCandidateState
project_candidate_state decision pinned_revision current_revision expires_at now =
    if decision == some confirm
    then confirmed
    else if decision == some reject
    then rejected
    else if pinned_revision != current_revision
    then stale
    else if leb expires_at now
    then expired
    else pending

abbrev pub applied_student : StudentPreferences → FactProposal → StudentPreferences
applied_student preferences (intended_field_proposal value) = record {
  schema_version = preferences.schema_version;
  intended_field = value;
  preferred_countries = preferences.preferred_countries;
  intake = preferences.intake;
}
applied_student preferences (preferred_countries_proposal value) = record {
  schema_version = preferences.schema_version;
  intended_field = preferences.intended_field;
  preferred_countries = value;
  intake = preferences.intake;
}
applied_student preferences (intake_proposal value) = record {
  schema_version = preferences.schema_version;
  intended_field = preferences.intended_field;
  preferred_countries = preferences.preferred_countries;
  intake = value;
}
applied_student preferences _ = preferences

abbrev pub applied_family : FamilyPreferences → FactProposal → FamilyPreferences
applied_family family (risk_tolerance_proposal value) = record {
  schema_version = family.schema_version;
  risk_tolerance = value;
  japan_risk_accepted = family.japan_risk_accepted;
  budget = family.budget;
}
applied_family family (japan_risk_accepted_proposal value) = record {
  schema_version = family.schema_version;
  risk_tolerance = family.risk_tolerance;
  japan_risk_accepted = value;
  budget = family.budget;
}
applied_family family (budget_proposal value) = record {
  schema_version = family.schema_version;
  risk_tolerance = family.risk_tolerance;
  japan_risk_accepted = family.japan_risk_accepted;
  budget = value;
}
applied_family family _ = family

unfoldable pub apply_confirmed_fact : StudentCaseRevision → FactProposal → StudentCaseRevision
apply_confirmed_fact revision proposal = record {
  schema_version = revision.schema_version;
  organization_id = revision.organization_id;
  case_id = revision.case_id;
  revision = revision.revision + 1;
  student = applied_student revision.student proposal;
  family = applied_family revision.family proposal;
}
