-- ===== src/Planning/Contract.antt =====
-- `_validate_contract` of planning/policy.py.
use night_voyager.Base.{
  leb, if◌then◌else◌, ◌==◌, ◌!=◌, nat_eq, string_eq, option_eq, any, list_eq, set_beq, is_unique,
  String, Bool, not, ◌||◌, Option, none, some, List, [], ◌∷◌, map,
}
use night_voyager.Planning.Enums.{
  EvidenceAuthority, accepted_synthetic_demo, externally_verified, evidence_authority_eq,
  redistribution_class_eq, country_eq, route_outcome_eq, run_state_eq, case_state_eq,
}
use night_voyager.Planning.Models.{EvidenceRef, InputKind, synthetic, governed_mixed, PlanningInput}
use night_voyager.Planning.Scope.{preferred_country_scope_is_valid}

-- `MIXED_BASELINE_CLAIMS`
abbrev pub mixed_baseline_claims : List String
mixed_baseline_claims =
    "australia_program_fit" ∷ "australia_tuition" ∷ "australia_living_cost" ∷ "australia_fx"
    ∷ "japan_program_fit" ∷ "australia_ranking" ∷ []

abbrev pub claims_of : List EvidenceRef → List String
claims_of = map (λ e. e.claim)

-- `any(getattr(item, "schema_version", None) != 1 for item in versioned)`
abbrev pub some_version_differs : PlanningInput → Bool
some_version_differs i =
    (i.schema_version != 1)
    || ((i.case.schema_version != 1)
        || ((i.case.student.schema_version != 1)
            || ((i.case.family.schema_version != 1)
                || ((i.case.family.budget.schema_version != 1)
                    || ((i.source_pack.schema_version != 1)
                        || (any (λ x. x.schema_version != 1) i.source_pack.entries
                            || (any (λ x. x.schema_version != 1) i.evidence
                                || (any (λ x. x.schema_version != 1) i.costs
                                    || any (λ x. x.schema_version != 1) i.rankings))))))))

-- The organization id is a UUID by its type, so the second test of identity is left out.
abbrev pub some_version_is_zero : PlanningInput → Bool
some_version_is_zero i =
    leb i.case.revision 0
    || (leb i.source_pack.version 0 || any (λ e. leb e.source_pack_version 0) i.evidence)

-- The authority that a claim of a governed mixed input must carry.
abbrev pub mixed_authority : String → EvidenceAuthority
mixed_authority claim =
    if claim == "australia_program_fit" then externally_verified else accepted_synthetic_demo

-- The tests on the evidence, by the class of the input.
unfoldable pub evidence_contract_error : InputKind → List EvidenceRef → Option String
evidence_contract_error governed_mixed evidence =
    if not (is_unique (claims_of evidence))
      || not (set_beq (claims_of evidence) mixed_baseline_claims)
    then some "mixed_evidence_baseline_invalid"
    else if any (λ e. e.authority != mixed_authority e.claim) evidence
    then some "mixed_evidence_authority_invalid"
    else none
evidence_contract_error synthetic evidence =
    if any (λ e. e.authority != accepted_synthetic_demo) evidence
    then some "evidence_authority_invalid"
    else none

unfoldable pub validate_contract : PlanningInput → Option String
validate_contract i =
    if some_version_differs i
    then some "schema_or_version_invalid"
    else if not (preferred_country_scope_is_valid i.case.student.preferred_countries)
    then some "country_scope_invalid"
    else if some_version_is_zero i
    then some "schema_or_version_invalid"
    else elim (evidence_contract_error i.kind i.evidence) [
      | some e ↦ some e
      | none ↦ if any (λ c. c.currency != "AUD") i.costs then some "cost_currency_invalid" else none
    ]
