-- ===== src/Decision/Brief.antt =====
-- The brief that grants the routes of `eligible_route_ids` passes its own validator.
use night_voyager.Base.DictLaws.{dict_get-All, any-map-select}
use night_voyager.Base.{
  nat_eq, string_eq, option_eq, any, list_eq, dict_get, ◌≡◌, ap, ◌∙◌, true, false, some, List, map,
  arith,
}
use night_voyager.Base.Results.{ok}
use night_voyager.Base.ListLaws.{All-imp, Unique}
use night_voyager.Planning.Enums.{
  evidence_authority_eq, redistribution_class_eq, country_eq, route_outcome_eq, run_state_eq,
  case_state_eq,
}
use night_voyager.Decision.Models.{
  review_action_eq, decision_source_eq, BriefRoute, DecisionBriefProjection, is_ineligible,
  validate_brief,
}
use night_voyager.Decision.Policy.{is_eligible, eligible_route_ids}

-- A brief's eligible routes are those that the policy selects, of routes with distinct ids.
pub record IsGranted (brief : DecisionBriefProjection) : Type 0 where
  pub granted : brief.eligible_route_ids ≡ eligible_route_ids brief.routes
  pub distinct : Unique (map BriefRoute.route_id brief.routes)

eligible-fine :
    (all_routes : List BriefRoute) (r : BriefRoute)
    → dict_get BriefRoute.route_id r.route_id all_routes ≡ some r
    → is_eligible r ≡ true
    → is_ineligible all_routes r.route_id ≡ false
eligible-fine all_routes r found h = ground (arith, found)

-- A brief over routes with distinct ids that grants exactly the eligible ones passes its validator.
pub validate_brief-ok :
    (brief : DecisionBriefProjection) → IsGranted brief → validate_brief brief ≡ ok brief
unfolding validate_brief eligible_route_ids
validate_brief-ok brief g =
    let fine : any (is_ineligible brief.routes) (eligible_route_ids brief.routes) ≡ false =
      any-map-select BriefRoute.route_id is_eligible (is_ineligible brief.routes) brief.routes (
        All-imp (λ r found h. eligible-fine brief.routes r found h) brief.routes
          (dict_get-All BriefRoute.route_id brief.routes g.distinct)) in
    let same : any (is_ineligible brief.routes) brief.eligible_route_ids ≡ false =
      ap (any (is_ineligible brief.routes)) g.granted ∙ fine in
    ground (arith, same)
