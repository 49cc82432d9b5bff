-- ===== src/Decision/Choice.antt =====
-- What an accepted decision of a family satisfies.
use night_voyager.Base.{
  Option-cases, nat_eq, string_eq, option_eq, contains, list_eq, ◌≤◌, ◌≡◌, ◌↔◌, inl, inr, true,
  some, arith,
}
use night_voyager.Base.Results.{ok}
use night_voyager.Calendar.{date_eq}
use night_voyager.Identity.{actor_role_eq, permission_eq}
use night_voyager.Planning.Enums.{
  evidence_authority_eq, redistribution_class_eq, Country, country_beq_iff, country_eq,
  route_outcome_eq, run_state_eq, case_state_eq,
}
use night_voyager.Decision.Models.{
  review_action_eq, decision_source_eq, BriefRoute, DecisionBriefProjection, FamilyDecisionCommand,
}
use night_voyager.Decision.Policy.{selected_route, BriefPins, validate_family_decision}

-- The decision fits the pinned brief; where its route is in Australia, so do the trade-off and cost.
pub record IsSound (command : FamilyDecisionCommand) (pins : BriefPins) (route : BriefRoute)
    : Type 0 where
  pub brief : command.brief_id ≡ pins.brief_id
  pub version : command.expected_brief_version ≡ pins.brief_version
  pub ceiling : command.accepted_budget_max_minor ≤ pins.hard_ceiling
  pub trade_off :
      route.country ≡ Country.australia
      → contains "budget_elasticity" command.accepted_trade_offs ≡ true
  pub cost :
      route.country ≡ Country.australia
      → (command.accepted_budget_min_minor ≤ pins.australia_cost)
        × (pins.australia_cost ≤ command.accepted_budget_max_minor)

pub validate-eq-ok :
    (c : FamilyDecisionCommand) (b : DecisionBriefProjection) (p : BriefPins)
    → validate_family_decision c b p ≡ ok tt
    → (contains c.selected_route_id b.eligible_route_ids ≡ true)
      × ((route : BriefRoute) × (selected_route c.selected_route_id b.routes ≡ some route)
          × IsSound c p route)
unfolding validate_family_decision
validate-eq-ok c b p h = elim (Option-cases (selected_route c.selected_route_id b.routes)) [
  | inl absent ↦ absurd (ground (arith, absent))
  | inr (route, found) ↦ (
    ground arith,
    (
      route,
      found,
      record {
        brief = ground arith;
        version = ground arith;
        ceiling = ground arith;
        trade_off = λ a. ground arith;
        cost = λ a. ground arith;
      },
    ),
  )
]

validate-ok :
    (c : FamilyDecisionCommand) (b : DecisionBriefProjection) (p : BriefPins) (route : BriefRoute)
    → contains c.selected_route_id b.eligible_route_ids ≡ true
    → selected_route c.selected_route_id b.routes ≡ some route
    → IsSound c p route
    → validate_family_decision c b p ≡ ok tt
unfolding validate_family_decision
validate-ok c b p route eligible found sound = ground (
  arith,
  found,
  sound.brief,
  sound.version,
  sound.ceiling,
  sound.trade_off,
  sound.cost,
  nat_eq.eqb_iff c.brief_id p.brief_id,
  country_beq_iff route.country Country.australia,
)

-- A decision is accepted exactly if it chooses an eligible route that the brief has, at the brief's
-- pinned identity and version, within the hard ceiling, and, for a route in Australia, with the
-- elasticity accepted as a trade-off and the pinned cost inside the accepted budget.
pub validate_family_decision_iff :
    (c : FamilyDecisionCommand) (b : DecisionBriefProjection) (p : BriefPins)
    → (validate_family_decision c b p ≡ ok tt) ↔ (
        (contains c.selected_route_id b.eligible_route_ids ≡ true)
        × ((route : BriefRoute) × (selected_route c.selected_route_id b.routes ≡ some route)
            × IsSound c p route))
validate_family_decision_iff c b p = (
  validate-eq-ok c b p,
  λ (eligible, (route, found, sound)). validate-ok c b p route eligible found sound,
)
