-- ===== src/Planning/Policy.antt =====
-- `evaluate_planning_run` of planning/policy.py.
use night_voyager.Base.{
  if◌then◌else◌, ◌==◌, nat_eq, string_eq, option_eq, count_if, list_eq, String, Bool, ◌&&◌, Option,
  none, some, List, [], map,
}
use night_voyager.Planning.Enums.{
  evidence_authority_eq, redistribution_class_eq, Country, australia, japan, malaysia, country_eq,
  RouteOutcome, recommended_with_condition, route_outcome_eq, RunState, review_required,
  run_state_eq, case_state_eq,
}
use night_voyager.Planning.Models.{PlanningInput, RouteResult, PlanningResult}
use night_voyager.Planning.Contract.{validate_contract}
use night_voyager.Planning.Provenance.{validate_provenance}
use night_voyager.Planning.Routes.{has_claim, route_result, australia_route}

-- `none` is the `AssertionError` of `_australia`.
abbrev pub failed_result : String → PlanningResult
failed_result reason = record { state = RunState.failed; reason_code = reason; routes = [] }

abbrev pub japan_is_open : PlanningInput → Bool
japan_is_open i = has_claim i.evidence "japan_program_fit" && i.case.family.japan_risk_accepted

unfoldable pub japan_route : PlanningInput → RouteResult
japan_route i =
    if japan_is_open i
    then route_result japan RouteOutcome.conditional "synthetic_high_risk_alternative" i.evidence
    else route_result japan RouteOutcome.blocked "japan_risk_or_program_fit_unresolved" i.evidence

unfoldable pub malaysia_route : PlanningInput → RouteResult
malaysia_route i =
    if has_claim i.evidence "malaysia_program_fit"
    then route_result malaysia RouteOutcome.conditional "malaysia_program_fit_present" i.evidence
    else route_result malaysia RouteOutcome.blocked "direct_program_fit_evidence_absent" i.evidence

-- `routes_by_country[country]`, with the route of Australia at hand.
abbrev pub route_of : PlanningInput → RouteResult → Country → RouteResult
route_of i australia_result australia = australia_result
route_of i australia_result japan = japan_route i
route_of i australia_result malaysia = malaysia_route i

abbrev pub is_recommended : RouteResult → Bool
is_recommended r = r.outcome == recommended_with_condition

abbrev pub conclude : List RouteResult → PlanningResult
conclude routes =
    if count_if is_recommended routes == 1
    then record {
      state = review_required;
      reason_code = "single_fully_evidenced_recommendation";
      routes = routes;
    }
    else record {
      state = RunState.blocked;
      reason_code = "recommendation_cardinality";
      routes = routes;
    }

unfoldable pub assess_routes : PlanningInput → Option PlanningResult
assess_routes i = elim (australia_route i) [
  | none ↦ none
  | some a ↦ some (conclude (map (route_of i a) i.case.student.preferred_countries))
]

unfoldable pub evaluate_planning_run : PlanningInput → Option PlanningResult
evaluate_planning_run i = elim (validate_contract i) [
  | some reason ↦ some (failed_result reason)
  | none ↦ elim (validate_provenance i) [
    | some reason ↦ some (failed_result reason)
    | none ↦ assess_routes i
  ]
]
