-- ===== src/Decision/Recording.antt =====
-- What the service hands to the repository when it records a decision.

use mathlib.Core.Path.{subst}
use night_voyager.Base.{
  Option-cases, eq_of_some, nat_eq, string_eq, option_eq, contains, list_eq, ◌≤◌, ◌≡◌, sym, ◌∙◌,
  ◌≢◌, inl, inr, true, some, arith,
}
use night_voyager.Base.Results.{ok}
use night_voyager.Calendar.{date_eq}
use night_voyager.Identity.{
  ActorRole, actor_role_beq_iff, actor_role_eq, permission_eq, ActorContext,
}
use night_voyager.Planning.Enums.{
  evidence_authority_eq, redistribution_class_eq, Country, country_eq, route_outcome_eq,
  run_state_eq, case_state_eq,
}
use night_voyager.Decision.Models.{
  review_action_eq, DecisionSource, decision_source_beq_iff, decision_source_eq, BriefRoute,
  validate_brief, FamilyDecisionCommand,
}
use night_voyager.Decision.Policy.{selected_route, validate_family_decision, build_timeline_plan}
use night_voyager.Decision.Application.{
  BriefRecord, DecideCall, BriefLookup, decide_on, record_decision, decide_direct,
  decide_as_advisor,
}
use night_voyager.Decision.Choice.{IsSound, validate-eq-ok}
use night_voyager.Decision.Schedule.{IsSchedule, build_timeline_plan-IsSchedule}

-- A decision on a brief that was found: the command's, for a route in Australia whose pinned cost
-- lies in the accepted budget and under the ceiling, with a timeline after the day of the snapshot.
pub record IsRecorded (get_brief : BriefLookup) (context : ActorContext)
    (command : FamilyDecisionCommand) (call : DecideCall) : Type 0 where
  pub found : BriefRecord
  pub is_found : get_brief context command.brief_id ≡ some found
  pub as_given : (call.context ≡ context) × (call.command ≡ command)
  pub eligible : contains command.selected_route_id found.projection.eligible_route_ids ≡ true
  pub route : BriefRoute
  pub chosen : selected_route command.selected_route_id found.projection.routes ≡ some route
  pub in_australia : route.country ≡ Country.australia
  pub sound : IsSound command found.pins route
  pub affordable :
      (command.accepted_budget_min_minor ≤ found.pins.australia_cost)
      × (found.pins.australia_cost ≤ command.accepted_budget_max_minor)
      × (command.accepted_budget_max_minor ≤ found.pins.hard_ceiling)
  pub schedule : IsSchedule found.source_snapshot_date call.timeline.milestones

decide_on-parts :
    (context : ActorContext) (c : FamilyDecisionCommand) (f : BriefRecord) {call : DecideCall}
    → decide_on context c f ≡ ok call
    → (route : BriefRoute) × (selected_route c.selected_route_id f.projection.routes ≡ some route)
      × (validate_family_decision c f.projection f.pins ≡ ok tt)
      × (build_timeline_plan route.country f.projection.intake f.source_snapshot_date
          ≡ ok call.timeline)
      × (call.context ≡ context)
      × (call.command ≡ c)
unfolding decide_on validate_brief
decide_on-parts context c f h =
    elim (Option-cases (selected_route c.selected_route_id f.projection.routes)) [
      | inl absent ↦ absurd (ground (arith, absent))
      | inr (route, found) ↦ (
        route,
        found,
        ground (arith, found),
        ground (arith, found),
        ground (arith, found),
        ground (arith, found),
      )
    ]

decide_on-IsRecorded :
    (get_brief : BriefLookup) (context : ActorContext) (c : FamilyDecisionCommand) (f : BriefRecord)
    {call : DecideCall}
    → get_brief context c.brief_id ≡ some f
    → decide_on context c f ≡ ok call
    → IsRecorded get_brief context c call
decide_on-IsRecorded get_brief context c f {call} at h =
    let (route, found, valid, built, same, kept) = decide_on-parts context c f h in
    let (eligible, (other, found_again, sound_again)) =
      validate-eq-ok c f.projection f.pins valid in
    let same_route : other ≡ route = eq_of_some (sym found_again ∙ found) in
    let sound = subst (IsSound c f.pins) same_route sound_again in
    let (australian, schedule) =
      build_timeline_plan-IsSchedule route.country f.projection.intake f.source_snapshot_date
        built in
    let (lowest, highest) = sound.cost australian in
    record {
      found = f;
      is_found = at;
      as_given = (same, kept);
      eligible = eligible;
      route = route;
      chosen = found;
      in_australia = australian;
      sound = sound;
      affordable = (lowest, highest, sound.ceiling);
      schedule = schedule;
    }

record_decision-IsRecorded :
    (get_brief : BriefLookup) (context : ActorContext) (c : FamilyDecisionCommand)
    {call : DecideCall}
    → record_decision get_brief context c ≡ ok call
    → IsRecorded get_brief context c call
unfolding record_decision
record_decision-IsRecorded get_brief context c h =
    elim (Option-cases (get_brief context c.brief_id)) [
      | inl absent ↦ absurd (ground (arith, absent))
      | inr (f, at) ↦ decide_on-IsRecorded get_brief context c f at (ground (arith, at))
    ]

-- A member of the family decides directly only in their own name, and what is then recorded is a
-- decision for a route in Australia that the brief allows, at its pinned version, whose cost lies
-- in the accepted budget and under the ceiling, with a timeline after the day of the snapshot.
pub decide_direct-IsRecorded :
    (get_brief : BriefLookup) (context : ActorContext) (c : FamilyDecisionCommand)
    {call : DecideCall}
    → decide_direct get_brief context c ≡ ok call
    → (context.role ≢ ActorRole.advisor)
      × (c.source ≡ DecisionSource.direct)
      × (c.decision_made_by_actor_id ≡ context.actor_id)
      × IsRecorded get_brief context c call
unfolding decide_direct
decide_direct-IsRecorded get_brief context c h = (
  ground arith,
  ground (arith, decision_source_beq_iff c.source DecisionSource.direct),
  ground arith,
  record_decision-IsRecorded get_brief context c (ground arith),
)

-- What an advisor records is the decision of a family consultation, and satisfies the same.
pub decide_as_advisor-IsRecorded :
    (get_brief : BriefLookup) (context : ActorContext) (c : FamilyDecisionCommand)
    {call : DecideCall}
    → decide_as_advisor get_brief context c ≡ ok call
    → (context.role ≡ ActorRole.advisor)
      × (c.source ≡ DecisionSource.family_consultation)
      × IsRecorded get_brief context c call
unfolding decide_as_advisor
decide_as_advisor-IsRecorded get_brief context c h = (
  ground (arith, actor_role_beq_iff context.role ActorRole.advisor),
  ground (arith, decision_source_beq_iff c.source DecisionSource.family_consultation),
  record_decision-IsRecorded get_brief context c (ground arith),
)
