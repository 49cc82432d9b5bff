-- ===== src/Planning/Models.antt =====
-- The records of planning/models.py and planning/trusted.py. A UUID is its integer; a text that
-- is only compared is a `String`. `PositiveInt` fields hold natural numbers; `validate_*` are the
-- validators that run when a model is built.
use night_voyager.Base.{nat_eq, string_eq, option_eq, list_eq, ℕ, String, Bool, Option, List}
use night_voyager.Calendar.{Date, date_eq}
use night_voyager.Decimal.{Decimal}
use night_voyager.Planning.Enums.{
  EvidenceAuthority, evidence_authority_eq, EvidenceClass, RedistributionClass,
  redistribution_class_eq, Country, country_eq, RouteOutcome, route_outcome_eq, DimensionOutcome,
  EvidenceRole, RunState, run_state_eq, case_state_eq, RiskTolerance,
}

abbrev pub Uuid : Type 0
Uuid = ℕ

pub record BudgetEnvelope : Type 0 where
  pub schema_version : ℕ
  pub currency : String
  pub period : String
  pub preferred_minor : Option ℕ
  pub hard_ceiling_minor : Option ℕ
  pub elasticity_bps : ℕ
  pub refused : Bool

pub record StudentPreferences : Type 0 where
  pub schema_version : ℕ
  pub intended_field : String
  pub preferred_countries : List Country
  pub intake : String

pub record FamilyPreferences : Type 0 where
  pub schema_version : ℕ
  pub risk_tolerance : RiskTolerance
  pub japan_risk_accepted : Bool
  pub budget : BudgetEnvelope

pub record StudentCaseRevision : Type 0 where
  pub schema_version : ℕ
  pub organization_id : Uuid
  pub case_id : Uuid
  pub revision : ℕ
  pub student : StudentPreferences
  pub family : FamilyPreferences

pub record SourcePackEntry : Type 0 where
  pub schema_version : ℕ
  pub entry_id : Uuid
  pub path : String
  pub sha256 : String
  pub snapshot_date : Date
  pub publisher : String
  pub institution : String
  pub canonical_url : String
  pub freshness_days : ℕ
  pub redistribution_class : RedistributionClass
  pub evidence_class : EvidenceClass
  pub coverage : List String
  pub known_gaps : List String

pub record SourcePackManifest : Type 0 where
  pub schema_version : ℕ
  pub organization_id : Uuid
  pub pack_id : Uuid
  pub version : ℕ
  pub entries : List SourcePackEntry

-- `EvidenceRef`, and `TrustedEvidenceRef`, which has the same fields and another set of admitted
-- authorities.
pub record EvidenceRef : Type 0 where
  pub schema_version : ℕ
  pub organization_id : Uuid
  pub evidence_id : Uuid
  pub claim : String
  pub source_pack_id : Uuid
  pub source_pack_version : ℕ
  pub source_entry_id : Uuid
  pub source_sha256 : String
  pub authority : EvidenceAuthority

pub record CostEvidence : Type 0 where
  pub schema_version : ℕ
  pub organization_id : Uuid
  pub country : Country
  pub intake : String
  pub period : String
  pub currency : String
  pub tuition_minor : ℕ
  pub living_minor : ℕ
  pub fx_rate : Decimal
  pub fx_source : String
  pub fx_date : Date
  pub tuition_evidence_id : Uuid
  pub living_evidence_id : Uuid
  pub fx_evidence_id : Uuid

pub record RankingEvidence : Type 0 where
  pub schema_version : ℕ
  pub organization_id : Uuid
  pub country : Country
  pub ranking_system : String
  pub rank : ℕ
  pub publication_year : ℕ
  pub evidence_id : Uuid

-- Which member of `PlanningInput | GovernedMixedPlanningInput` an input is: what `isinstance` asks.
pub data InputKind : Type 0 where
  synthetic governed_mixed : InputKind

pub record PlanningInput : Type 0 where
  pub kind : InputKind
  pub schema_version : ℕ
  pub organization_id : Uuid
  pub case : StudentCaseRevision
  pub source_pack : SourcePackManifest
  pub evidence : List EvidenceRef
  pub costs : List CostEvidence
  pub rankings : List RankingEvidence
  pub narrative : Option String

pub record EvidenceUse : Type 0 where
  pub role : EvidenceRole
  pub evidence_id : Uuid

pub record DimensionResult : Type 0 where
  pub dimension_key : String
  pub outcome : DimensionOutcome
  pub reason_code : String
  pub evidence_uses : List EvidenceUse

pub record RouteResult : Type 0 where
  pub country : Country
  pub outcome : RouteOutcome
  pub reason_code : String
  pub dimensions : List DimensionResult

pub record PlanningResult : Type 0 where
  pub state : RunState
  pub reason_code : String
  pub routes : List RouteResult
