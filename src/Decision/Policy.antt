-- ===== src/Decision/Policy.antt =====
-- decision/policy.py: which routes are eligible, whether a decision is accepted, and the timeline.
use night_voyager.Base.{
  ltb, leb, if◌then◌else◌, ◌==◌, ◌!=◌, nat_eq, string_eq, option_eq, select, find_first, contains,
  list_eq, is_unique, ℕ, zero, suc, String, Bool, false, not, ◌&&◌, ◌||◌, Option, none, some, List,
  [], ◌∷◌, map,
}
use night_voyager.Base.Results.{Result, ok, err, ◌>>=◌}
use night_voyager.Base.Int.{ℤ, pos, negsuc}
use night_voyager.Calendar.{Date, date_eq, make_date, date_ltb}
use night_voyager.Planning.Enums.{
  evidence_authority_eq, redistribution_class_eq, Country, country_eq, RouteOutcome,
  route_outcome_eq, run_state_eq, case_state_eq,
}
use night_voyager.Planning.Models.{Uuid}
use night_voyager.Decision.Models.{
  review_action_eq, decision_source_eq, EvidenceRiskAcceptance, BriefRoute, DecisionBriefProjection,
  FamilyDecisionCommand, TimelineMilestone, TimelinePlan,
}
use night_voyager.Decision.Intake.{year_and_month}

abbrev pub is_eligible : BriefRoute → Bool
is_eligible route =
    (route.country == Country.australia)
    && (route.outcome == RouteOutcome.recommended_with_condition)

unfoldable pub eligible_route_ids : List BriefRoute → List Uuid
eligible_route_ids routes = map BriefRoute.route_id (select is_eligible routes)

unfoldable pub validate_risk_acceptances : List EvidenceRiskAcceptance → Result (Unit {0})
validate_risk_acceptances acceptances =
    if not (is_unique (map EvidenceRiskAcceptance.evidence_id acceptances))
    then err "Evidence risk acceptance must be unique"
    else ok tt

-- `next(route for route in brief.routes if route.route_id == selected)`
abbrev pub selected_route : Uuid → List BriefRoute → Option BriefRoute
selected_route selected routes = find_first (λ route. route.route_id == selected) routes

-- What is pinned beside the brief.
pub record BriefPins : Type 0 where
  pub brief_id : Uuid
  pub brief_version : ℕ
  pub hard_ceiling : ℕ
  pub australia_cost : ℕ

unfoldable pub validate_family_decision :
    FamilyDecisionCommand → DecisionBriefProjection → BriefPins → Result (Unit {0})
validate_family_decision command brief pins =
    if (command.brief_id != pins.brief_id) || (command.expected_brief_version != pins.brief_version)
    then err "decision brief is stale"
    else if not (contains command.selected_route_id brief.eligible_route_ids)
    then err "selected route is not eligible"
    else elim (selected_route command.selected_route_id brief.routes) [
      | none ↦ err "StopIteration"
      | some route ↦
          if ltb pins.hard_ceiling command.accepted_budget_max_minor
          then err "accepted budget exceeds pinned hard ceiling"
          else if route.country == Country.australia
          then if not (contains "budget_elasticity" command.accepted_trade_offs)
            then err "Australia requires budget_elasticity trade-off"
            else if not (
                leb command.accepted_budget_min_minor pins.australia_cost
                && leb pins.australia_cost command.accepted_budget_max_minor)
            then err "accepted budget must contain pinned cost"
            else ok tt
          else ok tt
    ]

-- `date(year, ...)` for a year that may be negative.
abbrev date_of : ℤ → ℕ → ℕ → Result Date
date_of (pos year) month day = make_date year month day
date_of (negsuc _) _ _ = err "year is out of range"

abbrev previous : ℤ → ℤ
previous (pos zero) = negsuc 0
previous (pos (suc n)) = pos n
previous (negsuc n) = negsuc (suc n)

abbrev pub milestone : String → Date → TimelineMilestone
milestone key due_date = record { key = key; due_date = due_date }

unfoldable pub plan_milestones : ℤ → Result (List TimelineMilestone)
plan_milestones year = do
  documents ← date_of (previous year) 9 1
  application ← date_of (previous year) 10 15
  visa ← date_of (previous year) 12 15
  arrival ← date_of year 1 20
  ok (
      milestone "documents" documents
      ∷ milestone "application" application
      ∷ milestone "visa" visa
      ∷ milestone "arrival" arrival
      ∷ [])

abbrev month_is_two : ℤ → Bool
month_is_two (pos n) = n == 2
month_is_two (negsuc _) = false

-- The plan of an intake in February, if the documents' date is still ahead.
unfoldable pub plan_for_year : Country → String → ℤ → Date → Result TimelinePlan
plan_for_year country intake_text year decided_on = do
  documents ← date_of (previous year) 9 1
  if not (date_ltb decided_on documents)
      then err "decision date is outside the deterministic timeline window"
      else plan_milestones year >>= λ milestones. ok (record {
        schema_version = 1;
        country = country;
        intake = intake_text;
        milestones = milestones;
      })

unfoldable pub build_timeline_plan : Country → String → Date → Result TimelinePlan
build_timeline_plan country intake_text decided_on =
    if country != Country.australia
    then err "M3B synthetic timeline supports the selected Australia route"
    else elim (year_and_month intake_text) [
      | none ↦ err "invalid literal for int() with base 10"
      | some year_month ↦
          if not (month_is_two year_month.1)
          then err "M3B synthetic timeline requires the February intake"
          else plan_for_year country intake_text year_month.0 decided_on
    ]
