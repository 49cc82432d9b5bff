-- ===== src/Collaboration/Facts.antt =====
-- What a confirmed fact changes, and what it does not.
use night_voyager.Planning.Enums.{
  evidence_authority_eq, evidence_class_eq, redistribution_class_eq, country_eq, route_outcome_eq,
  run_state_eq, case_state_eq,
}
use night_voyager.Base.{
  nat_eq, string_eq, option_eq, contains, list_eq, ◌+◌, ◌≡◌, refl, ◌≢◌, true, some, arith,
}
use night_voyager.Identity.{ActorRole, actor_role_eq, actor_role_value, permission_eq, role_of}
use night_voyager.Planning.Models.{StudentPreferences, FamilyPreferences, StudentCaseRevision}
use night_voyager.Collaboration.Models.{
  FactKey, student_intended_field, student_preferred_countries, student_intake,
  family_risk_tolerance, family_japan_risk_accepted, family_budget, fact_key_eq, fact_key_value,
  fact_key_named, memory_candidate_state_eq, verification_decision_eq, FactProposal,
  intended_field_proposal, preferred_countries_proposal, intake_proposal, risk_tolerance_proposal,
  japan_risk_accepted_proposal, budget_proposal, fact_key_of,
}
use night_voyager.Collaboration.Policy.{
  role_facts, role_allows_fact, applied_student, applied_family, apply_confirmed_fact,
}

-- The next revision of the same case, in which the facts of the role's side alone may differ.
pub record IsNextRevision (role : ActorRole) (old new : StudentCaseRevision) : Type 0 where
  pub organization : new.organization_id ≡ old.organization_id
  pub same_case : new.case_id ≡ old.case_id
  pub next : new.revision ≡ old.revision + 1
  pub student_kept : role ≢ ActorRole.student → new.student ≡ old.student
  pub family_kept : role ≢ ActorRole.parent → new.family ≡ old.family

keeps_student :
    (role : ActorRole) (s : StudentPreferences) (p : FactProposal)
    → contains (fact_key_of p) (role_facts role) ≡ true
    → role ≢ ActorRole.student
    → applied_student s p ≡ s
keeps_student ActorRole.student s p h other = absurd (other refl)
keeps_student ActorRole.advisor s p h other = absurd (ground arith)
keeps_student ActorRole.parent s (intended_field_proposal v) h other = absurd (ground arith)
keeps_student ActorRole.parent s (preferred_countries_proposal v) h other = absurd (ground arith)
keeps_student ActorRole.parent s (intake_proposal v) h other = absurd (ground arith)
keeps_student ActorRole.parent s _ h other = refl

keeps_family :
    (role : ActorRole) (f : FamilyPreferences) (p : FactProposal)
    → contains (fact_key_of p) (role_facts role) ≡ true
    → role ≢ ActorRole.parent
    → applied_family f p ≡ f
keeps_family ActorRole.parent f p h other = absurd (other refl)
keeps_family ActorRole.advisor f p h other = absurd (ground arith)
keeps_family ActorRole.student f (risk_tolerance_proposal v) h other = absurd (ground arith)
keeps_family ActorRole.student f (japan_risk_accepted_proposal v) h other = absurd (ground arith)
keeps_family ActorRole.student f (budget_proposal v) h other = absurd (ground arith)
keeps_family ActorRole.student f _ h other = refl

role_of-value : (role : ActorRole) → role_of (actor_role_value role) ≡ some role
role_of-value ActorRole.advisor = refl
role_of-value ActorRole.student = refl
role_of-value ActorRole.parent = refl

fact_key_named-value : (key : FactKey) → fact_key_named (fact_key_value key) ≡ some key
fact_key_named-value student_intended_field = refl
fact_key_named-value student_preferred_countries = refl
fact_key_named-value student_intake = refl
fact_key_named-value family_risk_tolerance = refl
fact_key_named-value family_japan_risk_accepted = refl
fact_key_named-value family_budget = refl

allowed_facts :
    (role : ActorRole) (key : FactKey)
    → role_allows_fact (actor_role_value role) (fact_key_value key) ≡ true
    → contains key (role_facts role) ≡ true
unfolding role_allows_fact
allowed_facts role key h = ground (arith, role_of-value role, fact_key_named-value key)

-- Confirming a fact that its role may state makes the next revision of the same case, in which a
-- student changes no preference of the family and a parent none of the student.
pub apply_confirmed_fact-IsNextRevision :
    (role : ActorRole) (revision : StudentCaseRevision) (proposal : FactProposal)
    → role_allows_fact (actor_role_value role) (fact_key_value (fact_key_of proposal)) ≡ true
    → IsNextRevision role revision (apply_confirmed_fact revision proposal)
unfolding apply_confirmed_fact
apply_confirmed_fact-IsNextRevision role revision proposal h = record {
  organization = refl;
  same_case = refl;
  next = refl;
  student_kept =
      keeps_student role revision.student proposal (allowed_facts role (fact_key_of proposal) h);
  family_kept =
      keeps_family role revision.family proposal (allowed_facts role (fact_key_of proposal) h);
}
