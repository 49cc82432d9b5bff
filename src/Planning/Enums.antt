-- ===== src/Planning/Enums.antt =====
-- The enumerations of planning/models.py. A `StrEnum` is a data type; where the code reads the
-- text of a member, `_value` gives it. `is` and `==` on members are the Boolean tests.
use night_voyager.Base.{Bool, true, false, String, ◌≡◌, ◌↔◌, HasEq, arith}

pub data EvidenceAuthority : Type 0 where
  untrusted_candidate accepted_synthetic_demo externally_verified : EvidenceAuthority

abbrev pub evidence_authority_beq : EvidenceAuthority → EvidenceAuthority → Bool
evidence_authority_beq untrusted_candidate untrusted_candidate = true
evidence_authority_beq accepted_synthetic_demo accepted_synthetic_demo = true
evidence_authority_beq externally_verified externally_verified = true
evidence_authority_beq _ _ = false

pub evidence_authority_beq_iff :
    (a b : EvidenceAuthority) → (evidence_authority_beq a b ≡ true) ↔ (a ≡ b)
evidence_authority_beq_iff a b = ground arith

instance abbrev pub evidence_authority_eq : HasEq EvidenceAuthority
evidence_authority_eq = record {
  eqb = evidence_authority_beq;
  eqb_iff = evidence_authority_beq_iff;
}

pub data EvidenceClass : Type 0 where
  synthetic_demo institutional government : EvidenceClass

abbrev pub evidence_class_beq : EvidenceClass → EvidenceClass → Bool
evidence_class_beq synthetic_demo synthetic_demo = true
evidence_class_beq institutional institutional = true
evidence_class_beq government government = true
evidence_class_beq _ _ = false

pub evidence_class_beq_iff : (a b : EvidenceClass) → (evidence_class_beq a b ≡ true) ↔ (a ≡ b)
evidence_class_beq_iff a b = ground arith

instance abbrev pub evidence_class_eq : HasEq EvidenceClass
evidence_class_eq = record { eqb = evidence_class_beq; eqb_iff = evidence_class_beq_iff }

pub data RedistributionClass : Type 0 where
  synthetic_public link_only : RedistributionClass

abbrev pub redistribution_class_beq : RedistributionClass → RedistributionClass → Bool
redistribution_class_beq synthetic_public synthetic_public = true
redistribution_class_beq link_only link_only = true
redistribution_class_beq _ _ = false

pub redistribution_class_beq_iff :
    (a b : RedistributionClass) → (redistribution_class_beq a b ≡ true) ↔ (a ≡ b)
redistribution_class_beq_iff a b = ground arith

instance abbrev pub redistribution_class_eq : HasEq RedistributionClass
redistribution_class_eq = record {
  eqb = redistribution_class_beq;
  eqb_iff = redistribution_class_beq_iff;
}

pub data Country : Type 0 where
  australia japan malaysia : Country

abbrev pub country_beq : Country → Country → Bool
country_beq australia australia = true
country_beq japan japan = true
country_beq malaysia malaysia = true
country_beq _ _ = false

pub country_beq_iff : (a b : Country) → (country_beq a b ≡ true) ↔ (a ≡ b)
country_beq_iff a b = ground arith

instance abbrev pub country_eq : HasEq Country
country_eq = record { eqb = country_beq; eqb_iff = country_beq_iff }

abbrev pub country_value : Country → String
country_value australia = "australia"
country_value japan = "japan"
country_value malaysia = "malaysia"

pub data RouteOutcome : Type 0 where
  recommended_with_condition conditional blocked : RouteOutcome

abbrev pub route_outcome_beq : RouteOutcome → RouteOutcome → Bool
route_outcome_beq recommended_with_condition recommended_with_condition = true
route_outcome_beq conditional conditional = true
route_outcome_beq blocked blocked = true
route_outcome_beq _ _ = false

pub route_outcome_beq_iff : (a b : RouteOutcome) → (route_outcome_beq a b ≡ true) ↔ (a ≡ b)
route_outcome_beq_iff a b = ground arith

instance abbrev pub route_outcome_eq : HasEq RouteOutcome
route_outcome_eq = record { eqb = route_outcome_beq; eqb_iff = route_outcome_beq_iff }

pub data DimensionOutcome : Type 0 where
  supported conditional blocked : DimensionOutcome

pub data EvidenceRole : Type 0 where
  program_fit tuition living_cost fx ranking : EvidenceRole

pub data RunState : Type 0 where
  draft collecting_evidence synthesizing failed blocked review_required : RunState

abbrev pub run_state_beq : RunState → RunState → Bool
run_state_beq draft draft = true
run_state_beq collecting_evidence collecting_evidence = true
run_state_beq synthesizing synthesizing = true
run_state_beq failed failed = true
run_state_beq RunState.blocked RunState.blocked = true
run_state_beq review_required review_required = true
run_state_beq _ _ = false

pub run_state_beq_iff : (a b : RunState) → (run_state_beq a b ≡ true) ↔ (a ≡ b)
run_state_beq_iff a b = ground arith

instance abbrev pub run_state_eq : HasEq RunState
run_state_eq = record { eqb = run_state_beq; eqb_iff = run_state_beq_iff }

pub data CaseState : Type 0 where
  intake planning advisor_review family_review decided plan_ready : CaseState

abbrev pub case_state_beq : CaseState → CaseState → Bool
case_state_beq intake intake = true
case_state_beq planning planning = true
case_state_beq advisor_review advisor_review = true
case_state_beq family_review family_review = true
case_state_beq decided decided = true
case_state_beq plan_ready plan_ready = true
case_state_beq _ _ = false

pub case_state_beq_iff : (a b : CaseState) → (case_state_beq a b ≡ true) ↔ (a ≡ b)
case_state_beq_iff a b = ground arith

instance abbrev pub case_state_eq : HasEq CaseState
case_state_eq = record { eqb = case_state_beq; eqb_iff = case_state_beq_iff }

-- `Literal["low", "medium", "high"]`
pub data RiskTolerance : Type 0 where
  low medium high : RiskTolerance
