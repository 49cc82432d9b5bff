-- ===== src/Planning/Routes.antt =====
-- `_route_result` and `_australia` of planning/policy.py: the outcome of one route.
use night_voyager.Decimal
use night_voyager.Base.{
  if◌then◌else◌, is_none, ◌==◌, nat_eq, string_eq, option_eq, all, find_first, is_subset, list_eq,
  dict_get, ℕ, ◌+◌, String, Bool, false, not, ◌&&◌, ◌||◌, Option, none, some, List, [], ◌∷◌, map,
}
use night_voyager.Decimal.{Decimal, of_int, multiply, add, divide_ten_thousand, greater}
use night_voyager.Planning.Enums.{
  evidence_authority_eq, redistribution_class_eq, Country, australia, japan, malaysia, country_eq,
  RouteOutcome, recommended_with_condition, route_outcome_eq, DimensionOutcome, EvidenceRole,
  run_state_eq, case_state_eq,
}
use night_voyager.Planning.Models.{
  BudgetEnvelope, EvidenceRef, CostEvidence, PlanningInput, EvidenceUse, RouteResult,
}

abbrev pub get_evidence_by_claim : List EvidenceRef → String → Option EvidenceRef
get_evidence_by_claim evidence k = dict_get (λ e. e.claim) k evidence

-- `claim in evidence_by_claim`
abbrev pub has_claim : List EvidenceRef → String → Bool
has_claim evidence k = not (is_none (get_evidence_by_claim evidence k))

-- `claims_by_country`
abbrev pub claims_by_country : Country → List (String × EvidenceRole)
claims_by_country australia =
    ("australia_program_fit", EvidenceRole.program_fit)
    ∷ ("australia_tuition", EvidenceRole.tuition)
    ∷ ("australia_living_cost", EvidenceRole.living_cost)
    ∷ ("australia_fx", EvidenceRole.fx)
    ∷ ("australia_ranking", EvidenceRole.ranking)
    ∷ []
claims_by_country japan = ("japan_program_fit", EvidenceRole.program_fit) ∷ []
claims_by_country malaysia = ("malaysia_program_fit", EvidenceRole.program_fit) ∷ []

abbrev pub add_use : EvidenceRole → Option EvidenceRef → List EvidenceUse → List EvidenceUse
add_use role none rest = rest
add_use role (some e) rest = record { role = role; evidence_id = e.evidence_id } ∷ rest

-- The tuple `uses`: the claims of a country that the evidence carries.
unfoldable pub evidence_uses : List EvidenceRef → List (String × EvidenceRole) → List EvidenceUse
evidence_uses evidence [] = []
evidence_uses evidence ((claim, role) ∷ rest) =
    add_use role (get_evidence_by_claim evidence claim) (evidence_uses evidence rest)

abbrev pub dimension_outcome : RouteOutcome → DimensionOutcome
dimension_outcome RouteOutcome.blocked = DimensionOutcome.blocked
dimension_outcome RouteOutcome.recommended_with_condition = DimensionOutcome.supported
dimension_outcome RouteOutcome.conditional = DimensionOutcome.conditional

unfoldable pub route_result : Country → RouteOutcome → String → List EvidenceRef → RouteResult
unfolding evidence_uses
route_result country outcome reason evidence = record {
  country = country;
  outcome = outcome;
  reason_code = reason;
  dimensions =
      record {
        dimension_key = "route_assessment";
        outcome = dimension_outcome outcome;
        reason_code = reason;
        evidence_uses = evidence_uses evidence (claims_by_country country);
      }
      ∷ [];
}

abbrev pub required_claims : List String
required_claims =
    "australia_program_fit" ∷ "australia_tuition" ∷ "australia_living_cost" ∷ "australia_fx" ∷ []

-- `next((item for item in costs if item.country is AUSTRALIA), None)`
abbrev pub australia_cost : PlanningInput → Option CostEvidence
australia_cost i = find_first (λ c. c.country == australia) i.costs

-- The part of `complete` that reads the cost row.
abbrev pub cost_is_complete : PlanningInput → Option CostEvidence → Bool
cost_is_complete i none = false
cost_is_complete i (some cost) =
    (cost.intake == i.case.student.intake)
    && ((cost.period == i.case.family.budget.period)
        && is_subset (cost.tuition_evidence_id ∷ cost.living_evidence_id ∷ cost.fx_evidence_id ∷ [])
            (map (λ e. e.evidence_id) i.evidence))

unfoldable pub is_complete : PlanningInput → Bool
is_complete i = all (has_claim i.evidence) required_claims && cost_is_complete i (australia_cost i)

-- `Decimal(cost.tuition_minor + cost.living_minor) * cost.fx_rate`
unfoldable pub total_cost : CostEvidence → Decimal
total_cost cost = multiply (of_int (cost.tuition_minor + cost.living_minor)) cost.fx_rate

-- `Decimal(preferred) * (Decimal(1) + Decimal(elasticity_bps) / Decimal(10000))`
unfoldable pub elastic_ceiling : ℕ → ℕ → Decimal
elastic_ceiling preferred bps =
    multiply (of_int preferred) (Decimal.add (of_int 1) (divide_ten_thousand (of_int bps)))

abbrev pub exceeded : RouteOutcome × String
exceeded = (RouteOutcome.blocked, "budget_hard_ceiling_or_elasticity_exceeded")

abbrev pub within_boundary : RouteOutcome × String
within_boundary = (recommended_with_condition, "complete_cost_and_fx_within_boundary")

-- The last part of `_australia`, past its two assertions.
unfoldable pub budget_outcome : ℕ → ℕ → ℕ → CostEvidence → RouteOutcome × String
budget_outcome preferred hard_ceiling bps cost =
    if greater (total_cost cost) (of_int hard_ceiling)
      || greater (total_cost cost) (elastic_ceiling preferred bps)
    then exceeded
    else within_boundary

-- A failed `assert` is `none`.
abbrev pub assert_budget : BudgetEnvelope → Option CostEvidence → Option (RouteOutcome × String)
assert_budget b cost = elim cost [
  | none ↦ none
  | some c ↦ elim b.preferred_minor [
    | none ↦ none
    | some p ↦ elim b.hard_ceiling_minor [
      | none ↦ none
      | some h ↦ some (budget_outcome p h b.elasticity_bps c)
    ]
  ]
]

unfoldable pub australia_outcome : PlanningInput → Option (RouteOutcome × String)
australia_outcome i =
    if i.case.family.budget.refused
    then some (RouteOutcome.blocked, "budget_refused")
    else if not (is_complete i)
    then some (RouteOutcome.blocked, "cost_or_fx_evidence_incomplete")
    else assert_budget i.case.family.budget (australia_cost i)

-- `_australia`
unfoldable pub australia_route : PlanningInput → Option RouteResult
australia_route i = elim (australia_outcome i) [
  | none ↦ none
  | some (outcome, reason) ↦ some (route_result australia outcome reason i.evidence)
]
