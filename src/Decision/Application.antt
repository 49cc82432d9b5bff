-- ===== src/Decision/Application.antt =====
-- `DecisionService` of decision/application.py. The repository is a parameter: what it returns
-- for a brief, and how it stores a decision, which is an entry of the trace.
use night_voyager.Base.{
  if◌then◌else◌, ◌!=◌, nat_eq, string_eq, option_eq, contains, list_eq, not, ◌||◌, Option, none,
  some, [], ◌∷◌,
}
use night_voyager.Base.Results.{Result, ok, err, ◌>>=◌, ◌>>◌}
use night_voyager.Calendar.{Date, date_eq}
use night_voyager.Identity.{ActorRole, actor_role_eq, permission_eq, ActorContext}
use night_voyager.Planning.Enums.{
  evidence_authority_eq, redistribution_class_eq, country_eq, route_outcome_eq, run_state_eq,
  case_state_eq,
}
use night_voyager.Planning.Models.{Uuid}
use night_voyager.Decision.Models.{
  review_action_eq, DecisionSource, decision_source_eq, DecisionBriefProjection, validate_brief,
  FamilyDecisionCommand, TimelinePlan,
}
use night_voyager.Decision.Policy.{
  selected_route, BriefPins, validate_family_decision, build_timeline_plan,
}

-- The record that `get_brief` returns.
pub record BriefRecord : Type 0 where
  pub projection : DecisionBriefProjection
  pub pins : BriefPins
  pub source_snapshot_date : Date

-- What `_decide` hands to `repository.decide`.
pub record DecideCall : Type 0 where
  pub context : ActorContext
  pub command : FamilyDecisionCommand
  pub timeline : TimelinePlan

abbrev pub BriefLookup : Type 0
BriefLookup = ActorContext → Uuid → Option BriefRecord

-- `_decide` for a brief that was found.
unfoldable pub decide_on : ActorContext → FamilyDecisionCommand → BriefRecord → Result DecideCall
decide_on context command found = do
  projection ← validate_brief found.projection
  validate_family_decision command projection found.pins
      >> elim (selected_route command.selected_route_id projection.routes) [
        | none ↦ err "StopIteration"
        | some route ↦ do
          timeline ← build_timeline_plan route.country projection.intake found.source_snapshot_date
          ok (record { context = context; command = command; timeline = timeline })
      ]

-- `_decide`
unfoldable pub record_decision :
    BriefLookup → ActorContext → FamilyDecisionCommand → Result DecideCall
record_decision get_brief context command = elim (get_brief context command.brief_id) [
  | none ↦ err "decision brief unavailable"
  | some found ↦ decide_on context command found
]

unfoldable pub decide_direct :
    BriefLookup → ActorContext → FamilyDecisionCommand → Result DecideCall
decide_direct get_brief context command =
    if not (contains context.role (ActorRole.student ∷ ActorRole.parent ∷ []))
    then err "direct decision requires assigned family role"
    else if (command.source != DecisionSource.direct)
        || (command.decision_made_by_actor_id != context.actor_id)
    then err "direct decision actor mismatch"
    else record_decision get_brief context command

unfoldable pub decide_as_advisor :
    BriefLookup → ActorContext → FamilyDecisionCommand → Result DecideCall
decide_as_advisor get_brief context command =
    if (context.role != ActorRole.advisor) || (command.source != DecisionSource.family_consultation)
    then err "advisor-recorded decision requires family consultation"
    else record_decision get_brief context command
