-- ===== src/Decision/Models.antt =====
-- The values of decision/models.py with their validators.
use night_voyager.Base.{
  ltb, if◌then◌else◌, is_none, HasEq, ◌==◌, nat_eq, string_eq, option_eq, any, is_empty, list_eq,
  dict_get, ℕ, String, ◌≡◌, ◌↔◌, Bool, true, false, not, ◌&&◌, ◌||◌, Option, none, some, List,
  arith,
}
use night_voyager.Base.Results.{Result, ok, err}
use night_voyager.Planning.Enums.{
  evidence_authority_eq, redistribution_class_eq, Country, country_eq, RouteOutcome,
  route_outcome_eq, run_state_eq, case_state_eq,
}
use night_voyager.Planning.Models.{Uuid}
use night_voyager.Calendar.{Date, date_eq}

pub data ReviewAction : Type 0 where
  approve_for_consultation reject request_revision : ReviewAction

abbrev pub review_action_beq : ReviewAction → ReviewAction → Bool
review_action_beq approve_for_consultation approve_for_consultation = true
review_action_beq reject reject = true
review_action_beq request_revision request_revision = true
review_action_beq _ _ = false

pub review_action_beq_iff : (a b : ReviewAction) → (review_action_beq a b ≡ true) ↔ (a ≡ b)
review_action_beq_iff a b = ground arith

instance abbrev pub review_action_eq : HasEq ReviewAction
review_action_eq = record { eqb = review_action_beq; eqb_iff = review_action_beq_iff }

pub data DecisionSource : Type 0 where
  direct family_consultation : DecisionSource

abbrev pub decision_source_beq : DecisionSource → DecisionSource → Bool
decision_source_beq direct direct = true
decision_source_beq family_consultation family_consultation = true
decision_source_beq _ _ = false

pub decision_source_beq_iff : (a b : DecisionSource) → (decision_source_beq a b ≡ true) ↔ (a ≡ b)
decision_source_beq_iff a b = ground arith

instance abbrev pub decision_source_eq : HasEq DecisionSource
decision_source_eq = record { eqb = decision_source_beq; eqb_iff = decision_source_beq_iff }

-- `EvidenceRiskKind`: its constructors carry the text of a member.
pub data EvidenceRiskKind : Type 0 where
  optional stale unverified : EvidenceRiskKind

pub record EvidenceRiskAcceptance : Type 0 where
  pub evidence_id : Uuid
  pub kind : EvidenceRiskKind
  pub reason : String

-- The validator `narrow_kind`.
unfoldable pub narrow_kind : String → Result EvidenceRiskKind
narrow_kind value =
    if value == "optional"
    then ok optional
    else if value == "stale"
    then ok stale
    else if value == "unverified"
    then ok unverified
    else err "Evidence risk acceptance cannot waive this risk"

pub record BriefRoute : Type 0 where
  pub route_id : Uuid
  pub country : Country
  pub outcome : RouteOutcome
  pub reason_code : String

pub record DecisionBriefProjection : Type 0 where
  pub schema_version : ℕ
  pub intake : String
  pub routes : List BriefRoute
  pub eligible_route_ids : List Uuid
  pub accepted_evidence_risks : List EvidenceRiskAcceptance
  pub synthetic_proof : Bool

-- `route_id not in routes or routes[route_id].outcome is BLOCKED`
abbrev pub is_ineligible : List BriefRoute → Uuid → Bool
is_ineligible routes route_id = elim (dict_get BriefRoute.route_id route_id routes) [
  | none ↦ true
  | some route ↦ route.outcome == RouteOutcome.blocked
]

-- `DecisionBriefProjection.model_validate` on fields of the right types.
unfoldable pub validate_brief : DecisionBriefProjection → Result DecisionBriefProjection
validate_brief brief =
    if any (is_ineligible brief.routes) brief.eligible_route_ids
    then err "eligible route must be present and non-blocked"
    else ok brief

pub record FamilyDecisionCommand : Type 0 where
  pub schema_version : ℕ
  pub brief_id : Uuid
  pub expected_brief_version : ℕ
  pub selected_route_id : Uuid
  pub accepted_budget_min_minor : ℕ
  pub accepted_budget_max_minor : ℕ
  pub currency : String
  pub accepted_trade_offs : List String
  pub decision_made_by_actor_id : Uuid
  pub source : DecisionSource

-- `FamilyDecisionCommand.valid_range`
unfoldable pub valid_range : FamilyDecisionCommand → Result FamilyDecisionCommand
valid_range command =
    if ltb command.accepted_budget_max_minor command.accepted_budget_min_minor
    then err "accepted budget range is invalid"
    else ok command

pub record TimelineMilestone : Type 0 where
  pub key : String
  pub due_date : Date

pub record TimelinePlan : Type 0 where
  pub schema_version : ℕ
  pub country : Country
  pub intake : String
  pub milestones : List TimelineMilestone

pub record ReviewCommand : Type 0 where
  pub schema_version : ℕ
  pub case_id : Uuid
  pub planning_run_id : Uuid
  pub expected_case_revision : ℕ
  pub action : ReviewAction
  pub review_id : Uuid
  pub eligible_route_ids : List Uuid
  pub risk_acceptances : List EvidenceRiskAcceptance
  pub reviewer_notes : Option String
  pub brief_id : Option Uuid

-- `ReviewCommand.action_payload`; `approving != creates` on Booleans.
unfoldable pub action_payload : ReviewCommand → Result ReviewCommand
action_payload command =
    let approving = command.action == approve_for_consultation in
    let creates = not (is_none command.brief_id) in
    if (approving && not creates) || (not approving && creates)
    then err "only approval creates a decision brief"
    else if not approving
        && (not (is_empty command.eligible_route_ids) || not (is_empty command.risk_acceptances))
    then err "non-approval review cannot grant eligibility or accept risks"
    else ok command
