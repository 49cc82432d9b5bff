-- ===== src/Tests/Decision.antt =====
-- A decision of a family on a granted brief, and the execution of its timeline.
use night_voyager.TimelineExecution.Enums.{
  timeline_execution_state_eq, TimelineCheckpointState, timeline_checkpoint_state_eq, overdue,
  timeline_risk_state_eq, checkpoint_attestation_kind_eq, checkpoint_status_code_eq,
  checkpoint_attestation_reason_code_eq, checkpoint_verification_reason_code_eq,
}
use night_voyager.Base.{
  if◌then◌else◌, ◌==◌, nat_eq, string_eq, option_eq, All, contains, list_eq, ℕ, String, ◌≡◌, refl,
  ◌≢◌, ◌↔◌, true, none, some, List, [], ◌∷◌,
}
use night_voyager.Base.Results.{Result, ok, err}
use night_voyager.Calendar.{Date, date_eq, make_date, date_ltb}
use night_voyager.Calendar.Ordinal.{IsDate}
use night_voyager.Identity.{ActorRole, actor_role_eq, permission_eq, ActorContext}
use night_voyager.Planning.Enums.{
  evidence_authority_eq, evidence_class_eq, redistribution_class_eq, Country, country_eq,
  RouteOutcome, route_outcome_eq, run_state_eq, case_state_eq,
}
use night_voyager.Decision.Models.{
  review_action_eq, DecisionSource, direct, family_consultation, decision_source_eq, BriefRoute,
  DecisionBriefProjection, validate_brief, FamilyDecisionCommand, TimelinePlan,
}
use night_voyager.Decision.Intake.{python_int, split_dash, year_and_month}
use night_voyager.Decision.Policy.{
  eligible_route_ids, selected_route, BriefPins, validate_family_decision, milestone,
  plan_milestones, plan_for_year, build_timeline_plan,
}
use night_voyager.Decision.Application.{
  BriefRecord, DecideCall, BriefLookup, decide_on, record_decision, decide_direct,
  decide_as_advisor,
}
use night_voyager.Decision.Choice.{IsSound, validate_family_decision_iff}
use night_voyager.Decision.Schedule.{IsSchedule, build_timeline_plan-IsSchedule}
use night_voyager.Decision.Recording.{
  IsRecorded, decide_direct-IsRecorded, decide_as_advisor-IsRecorded,
}
use night_voyager.Decision.Brief.{IsGranted}
use night_voyager.TimelineExecution.Models.{
  CheckpointSeed, timeline_checkpoint_eq, timeline_activity_item_eq,
}
use night_voyager.TimelineExecution.Policy.{snapshot_timeline_plan, derive_risk_state}
use night_voyager.TimelineExecution.Snapshot.{IsSeeded, snapshot-build}

abbrev route : BriefRoute
route = record {
  route_id = 700;
  country = Country.australia;
  outcome = RouteOutcome.recommended_with_condition;
  reason_code = "complete_cost_and_fx_within_boundary";
}

abbrev second_route : BriefRoute
second_route = record {
  route_id = 701;
  country = Country.japan;
  outcome = RouteOutcome.conditional;
  reason_code = "japan";
}

abbrev brief : DecisionBriefProjection
brief = record {
  schema_version = 1;
  intake = "2027-02";
  routes = route ∷ second_route ∷ [];
  eligible_route_ids = 700 ∷ [];
  accepted_evidence_risks = [];
  synthetic_proof = true;
}

abbrev pins : BriefPins
pins = record {
  brief_id = 800;
  brief_version = 2;
  hard_ceiling = 40_000_000;
  australia_cost = 30_550_000;
}

abbrev snapshot_day : Date
snapshot_day = record { year = 2026; month = 7; day = 12 }

abbrev on_file : BriefRecord
on_file = record { projection = brief; pins = pins; source_snapshot_date = snapshot_day }

abbrev get_brief : BriefLookup
get_brief context brief_id = if brief_id == 800 then some on_file else none

abbrev command_from : DecisionSource → FamilyDecisionCommand
command_from source = record {
  schema_version = 1;
  brief_id = 800;
  expected_brief_version = 2;
  selected_route_id = 700;
  accepted_budget_min_minor = 25_000_000;
  accepted_budget_max_minor = 36_000_000;
  currency = "CNY";
  accepted_trade_offs = "budget_elasticity" ∷ [];
  decision_made_by_actor_id = 21;
  source = source;
}

abbrev parent : ActorContext
parent = record { organization_id = 10; actor_id = 21; role = ActorRole.parent; session_id = 31 }

abbrev advisor : ActorContext
advisor = record { organization_id = 10; actor_id = 22; role = ActorRole.advisor; session_id = 32 }

abbrev on : ℕ → ℕ → ℕ → Date
on y m d = record { year = y; month = m; day = d }

abbrev plan : TimelinePlan
plan = record {
  schema_version = 1;
  country = Country.australia;
  intake = "2027-02";
  milestones =
      milestone "documents" (on 2026 9 1)
      ∷ milestone "application" (on 2026 10 15)
      ∷ milestone "visa" (on 2026 12 15)
      ∷ milestone "arrival" (on 2027 1 20)
      ∷ [];
}

-- Unfolding this opens the timeline's construction.
timeline : Country → String → Date → Result TimelinePlan
unfolding build_timeline_plan year_and_month split_dash python_int plan_for_year plan_milestones
    make_date date_ltb
timeline = build_timeline_plan

plan_built : build_timeline_plan Country.australia "2027-02" snapshot_day ≡ ok plan
unfolding timeline
plan_built = refl

-- The other intakes of the fixtures' years are refused.
autumn_refused :
    build_timeline_plan Country.australia "2027-09" snapshot_day
    ≡ err "M3B synthetic timeline requires the February intake"
unfolding timeline
autumn_refused = refl

build_timeline_plan-IsSchedule_example :
    (Country.australia ≡ Country.australia) × IsSchedule snapshot_day plan.milestones
build_timeline_plan-IsSchedule_example =
    build_timeline_plan-IsSchedule Country.australia "2027-02" snapshot_day plan_built

snapshot_day-IsDate : IsDate snapshot_day
unfolding make_date
snapshot_day-IsDate = refl

snapshot-build_example :
    ((seeds : List CheckpointSeed) × (snapshot_timeline_plan plan ≡ ok seeds)
      × IsSeeded plan.milestones seeds)
    × All
        (λ m. derive_risk_state TimelineCheckpointState.pending m.due_date snapshot_day ≢ overdue)
        plan.milestones
snapshot-build_example =
    snapshot-build Country.australia "2027-02" snapshot_day snapshot_day-IsDate plan_built

granted : IsGranted brief
unfolding eligible_route_ids
granted = record { granted = refl; distinct = (refl, (refl, tt)) }

validate_family_decision_iff_example :
    (validate_family_decision (command_from direct) brief pins ≡ ok tt) ↔ (
      (contains 700 brief.eligible_route_ids ≡ true)
      × ((r : BriefRoute) × (selected_route 700 brief.routes ≡ some r)
          × IsSound (command_from direct) pins r))
validate_family_decision_iff_example = validate_family_decision_iff (command_from direct) brief pins

abbrev call_of : ActorContext → DecisionSource → DecideCall
call_of context source = record {
  context = context;
  command = command_from source;
  timeline = plan;
}

-- Unfolding this opens the recording of a decision.
recording : BriefLookup → ActorContext → FamilyDecisionCommand → Result DecideCall
unfolding timeline decide_direct decide_as_advisor record_decision decide_on validate_brief
    validate_family_decision
recording = decide_direct

direct_call : decide_direct get_brief parent (command_from direct) ≡ ok (call_of parent direct)
unfolding recording
direct_call = refl

decide_direct-IsRecorded_example :
    (ActorRole.parent ≢ ActorRole.advisor)
    × (direct ≡ direct)
    × ((command_from direct).decision_made_by_actor_id ≡ 21)
    × IsRecorded get_brief parent (command_from direct) (call_of parent direct)
decide_direct-IsRecorded_example =
    decide_direct-IsRecorded get_brief parent (command_from direct) direct_call

advisor_call :
    decide_as_advisor get_brief advisor (command_from family_consultation)
    ≡ ok (call_of advisor family_consultation)
unfolding recording
advisor_call = refl

decide_as_advisor-IsRecorded_example :
    (ActorRole.advisor ≡ ActorRole.advisor)
    × (family_consultation ≡ family_consultation)
    × IsRecorded get_brief advisor
        (command_from family_consultation)
        (call_of advisor family_consultation)
decide_as_advisor-IsRecorded_example =
    decide_as_advisor-IsRecorded get_brief advisor (command_from family_consultation) advisor_call
