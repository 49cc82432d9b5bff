-- ===== src/Tests/Planning.antt =====
-- The planning policy at the golden fixture, and the theorems about it at concrete inputs.
use night_voyager.Base.{
  nat_eq, string_eq, option_eq, All, contains, list_eq, ◌≡◌, refl, ◌≢◌, ◌↔◌, true, false, Option,
  some, [], ◌∷◌, map, arith,
}
use night_voyager.Base.Int.{pos}
use night_voyager.Base.Results.{ok}
use night_voyager.Decimal.{round_context, multiply, add, divide_ten_thousand, greater}
use night_voyager.Planning.Enums.{
  untrusted_candidate, evidence_authority_eq, evidence_class_eq, redistribution_class_eq, australia,
  japan, malaysia, country_eq, recommended_with_condition, route_outcome_eq, RunState,
  review_required, run_state_eq, case_state_eq,
}
use night_voyager.Planning.Models.{synthetic, governed_mixed, PlanningInput, PlanningResult}
use night_voyager.Planning.Scope.{preferred_country_scope_is_valid}
use night_voyager.Planning.Budget.{
  RawBudget, positive_int, optional_positive_int, bounded_bps, check_amounts, validate_budget,
  IsEnvelope,
}
use night_voyager.Planning.Contract.{evidence_contract_error, validate_contract}
use night_voyager.Planning.Provenance.{
  organization_ids, evidence_is_rejected, cost_is_rejected, ranking_is_rejected,
  validate_provenance,
}
use night_voyager.Planning.Routes.{
  route_result, is_complete, total_cost, elastic_ceiling, within_boundary, budget_outcome,
  australia_outcome, australia_route,
}
use night_voyager.Planning.Policy.{
  failed_result, japan_route, malaysia_route, route_of, conclude, assess_routes,
  evaluate_planning_run,
}
use night_voyager.Planning.ScopeLaws.{scopes, scope_iff}
use night_voyager.Planning.Admission.{
  BelongsTo, evaluate-one_tenant, IsTraceable, evaluate-IsTraceable,
}
use night_voyager.Planning.Authority.{AuthorityRule, evaluate-authority}
use night_voyager.Planning.Affordability.{IsWithin, budget_outcome_iff}
use night_voyager.Planning.Recommendation.{IsRecommendable, is_review_required, review_required_iff}
use night_voyager.Planning.Report.{Reports, evaluate-Reports}
use night_voyager.Planning.Totality.{validate_budget-IsEnvelope, evaluate-total}
use night_voyager.Tests.Golden.{budget, cost, golden_of, golden, golden_mixed}

-- Unfolding this opens every definition that a run reads.
unfoldable pub planning_run : PlanningInput → Option PlanningResult
unfolding evaluate_planning_run validate_contract evidence_contract_error organization_ids
    preferred_country_scope_is_valid validate_provenance evidence_is_rejected cost_is_rejected
    ranking_is_rejected assess_routes australia_route australia_outcome is_complete budget_outcome
    total_cost elastic_ceiling greater multiply add divide_ten_thousand round_context route_result
    japan_route malaysia_route
planning_run = evaluate_planning_run

abbrev pub output_of : PlanningInput → PlanningResult
output_of i = conclude (
    map
      (route_of i (
        route_result australia recommended_with_condition "complete_cost_and_fx_within_boundary"
          i.evidence))
      i.case.student.preferred_countries)

pub golden_run : evaluate_planning_run golden ≡ some (output_of golden)
unfolding planning_run
golden_run = refl

mixed_run : evaluate_planning_run golden_mixed ≡ some (output_of golden_mixed)
unfolding planning_run
mixed_run = refl

golden_state : (output_of golden).state ≡ review_required
unfolding planning_run
golden_state = refl

golden_live : (output_of golden).state ≢ RunState.failed
unfolding planning_run
golden_live h = cc

mixed_live : (output_of golden_mixed).state ≢ RunState.failed
unfolding planning_run
mixed_live h = cc

-- `dra_fallback_ready`: an untrusted item fails the run.
dra_fallback :
    evaluate_planning_run (golden_of synthetic untrusted_candidate)
    ≡ some (failed_result "evidence_authority_invalid")
unfolding planning_run
dra_fallback = refl

review_required_iff_example :
    (is_review_required (evaluate_planning_run golden) ≡ true) ↔ IsRecommendable golden
review_required_iff_example = review_required_iff golden

evaluate-one_tenant_example : BelongsTo 10 golden
evaluate-one_tenant_example = evaluate-one_tenant golden golden_run golden_live

evaluate-IsTraceable_example : All (IsTraceable golden) golden.evidence
evaluate-IsTraceable_example = evaluate-IsTraceable golden golden_run golden_live

evaluate-authority_example : AuthorityRule governed_mixed golden_mixed.evidence
evaluate-authority_example = evaluate-authority golden_mixed mixed_run mixed_live

evaluate-Reports_example : Reports golden (output_of golden).routes
evaluate-Reports_example = evaluate-Reports golden golden_run golden_live

golden_budget : IsEnvelope budget
golden_budget = record {
  elasticity = omega arith;
  currency = refl;
  period = refl;
  amounts = (34_000_000, 40_000_000, refl, refl, omega arith, omega arith);
}

evaluate-total_example : (r : PlanningResult) × (evaluate_planning_run golden ≡ some r)
evaluate-total_example = evaluate-total golden golden_budget

abbrev raw_budget : RawBudget
raw_budget = record {
  schema_version = pos 1;
  currency = "CNY";
  period = "program_total";
  preferred_minor = some (pos 34_000_000);
  hard_ceiling_minor = some (pos 40_000_000);
  elasticity_bps = pos 1000;
  refused = false;
}

raw_budget_valid : validate_budget raw_budget ≡ ok budget
unfolding validate_budget positive_int optional_positive_int bounded_bps check_amounts
raw_budget_valid = refl

validate_budget-IsEnvelope_example : IsEnvelope budget
validate_budget-IsEnvelope_example = validate_budget-IsEnvelope raw_budget raw_budget_valid

budget_outcome_iff_example :
    (budget_outcome 34_000_000 40_000_000 1000 cost ≡ within_boundary)
    ↔ IsWithin 34_000_000 40_000_000 1000 cost
budget_outcome_iff_example =
    budget_outcome_iff 34_000_000 40_000_000 1000 cost (omega arith, omega arith, omega arith)

scope_iff_example :
    (preferred_country_scope_is_valid (japan ∷ malaysia ∷ []) ≡ true)
    ↔ (contains (japan ∷ malaysia ∷ []) scopes ≡ true)
scope_iff_example = scope_iff (japan ∷ malaysia ∷ [])
