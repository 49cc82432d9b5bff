-- ===== src/Collaboration/Models.antt =====
-- The facts of collaboration/models.py and the validators of their values. `validate_safe_text`,
-- which is regular expressions over the text, is not modelled.
use night_voyager.Base.{
  leb, if◌then◌else◌, HasEq, ◌==◌, ◌!=◌, nat_eq, string_eq, option_eq, length, is_empty, dedup,
  list_eq, ℕ, String, ◌≡◌, ◌↔◌, Bool, true, false, not, ◌&&◌, ◌||◌, Option, none, some, List, [],
  ◌∷◌, arith,
}
use night_voyager.Base.Results.{Result, ok, err}
use night_voyager.Base.Order.{sorted_by}
use night_voyager.Planning.Enums.{
  evidence_authority_eq, evidence_class_eq, redistribution_class_eq, Country, country_eq,
  country_value, route_outcome_eq, run_state_eq, case_state_eq, RiskTolerance,
}
use night_voyager.Planning.Models.{BudgetEnvelope}
use night_voyager.Decision.Intake.{codes, is_digit}

pub data FactKey : Type 0 where
  student_intended_field student_preferred_countries student_intake family_risk_tolerance
        family_japan_risk_accepted family_budget :
      FactKey

abbrev pub fact_key_beq : FactKey → FactKey → Bool
fact_key_beq student_intended_field student_intended_field = true
fact_key_beq student_preferred_countries student_preferred_countries = true
fact_key_beq student_intake student_intake = true
fact_key_beq family_risk_tolerance family_risk_tolerance = true
fact_key_beq family_japan_risk_accepted family_japan_risk_accepted = true
fact_key_beq family_budget family_budget = true
fact_key_beq _ _ = false

pub fact_key_beq_iff : (a b : FactKey) → (fact_key_beq a b ≡ true) ↔ (a ≡ b)
fact_key_beq_iff a b = ground arith

instance abbrev pub fact_key_eq : HasEq FactKey
fact_key_eq = record { eqb = fact_key_beq; eqb_iff = fact_key_beq_iff }

abbrev pub fact_key_value : FactKey → String
fact_key_value student_intended_field = "student.intended_field"
fact_key_value student_preferred_countries = "student.preferred_countries"
fact_key_value student_intake = "student.intake"
fact_key_value family_risk_tolerance = "family.risk_tolerance"
fact_key_value family_japan_risk_accepted = "family.japan_risk_accepted"
fact_key_value family_budget = "family.budget"

-- `FactKey(text)`, which raises on another text.
abbrev pub fact_key_named : String → Option FactKey
fact_key_named s =
    if s == "student.intended_field"
    then some student_intended_field
    else if s == "student.preferred_countries"
    then some student_preferred_countries
    else if s == "student.intake"
    then some student_intake
    else if s == "family.risk_tolerance"
    then some family_risk_tolerance
    else if s == "family.japan_risk_accepted"
    then some family_japan_risk_accepted
    else if s == "family.budget"
    then some family_budget
    else none

pub data MemoryCandidateState : Type 0 where
  pending stale expired confirmed rejected : MemoryCandidateState

abbrev pub memory_candidate_state_beq : MemoryCandidateState → MemoryCandidateState → Bool
memory_candidate_state_beq pending pending = true
memory_candidate_state_beq stale stale = true
memory_candidate_state_beq expired expired = true
memory_candidate_state_beq confirmed confirmed = true
memory_candidate_state_beq rejected rejected = true
memory_candidate_state_beq _ _ = false

pub memory_candidate_state_beq_iff :
    (a b : MemoryCandidateState) → (memory_candidate_state_beq a b ≡ true) ↔ (a ≡ b)
memory_candidate_state_beq_iff a b = ground arith

instance abbrev pub memory_candidate_state_eq : HasEq MemoryCandidateState
memory_candidate_state_eq = record {
  eqb = memory_candidate_state_beq;
  eqb_iff = memory_candidate_state_beq_iff;
}

pub data VerificationDecision : Type 0 where
  confirm reject : VerificationDecision

abbrev pub verification_decision_beq : VerificationDecision → VerificationDecision → Bool
verification_decision_beq confirm confirm = true
verification_decision_beq reject reject = true
verification_decision_beq _ _ = false

pub verification_decision_beq_iff :
    (a b : VerificationDecision) → (verification_decision_beq a b ≡ true) ↔ (a ≡ b)
verification_decision_beq_iff a b = ground arith

instance abbrev pub verification_decision_eq : HasEq VerificationDecision
verification_decision_eq = record {
  eqb = verification_decision_beq;
  eqb_iff = verification_decision_beq_iff;
}

pub data FactProposal : Type 0 where
  intended_field_proposal : String → FactProposal
  preferred_countries_proposal : List Country → FactProposal
  intake_proposal : String → FactProposal
  risk_tolerance_proposal : RiskTolerance → FactProposal
  japan_risk_accepted_proposal : Bool → FactProposal
  budget_proposal : BudgetEnvelope → FactProposal

abbrev pub fact_key_of : FactProposal → FactKey
fact_key_of (intended_field_proposal _) = student_intended_field
fact_key_of (preferred_countries_proposal _) = student_preferred_countries
fact_key_of (intake_proposal _) = student_intake
fact_key_of (risk_tolerance_proposal _) = family_risk_tolerance
fact_key_of (japan_risk_accepted_proposal _) = family_japan_risk_accepted
fact_key_of (budget_proposal _) = family_budget

-- `PreferredCountriesProposal.validate_countries`
unfoldable pub validate_countries : List Country → Result (List Country)
validate_countries value =
    if is_empty value
    then err "preferred countries must not be empty"
    else if length (dedup value) != length value
    then err "preferred countries must be unique"
    else if value != sorted_by country_value value
    then err "preferred countries must be sorted"
    else ok value

-- `re.fullmatch(r"[0-9]{4}-(?:0[1-9]|1[0-2])", value)`
abbrev pub is_month_number : ℕ → ℕ → Bool
is_month_number a b = ((a == 48) && (leb 49 b && leb b 57)) || ((a == 49) && (leb 48 b && leb b 50))

abbrev pub matches_month : List ℕ → Bool
matches_month (a ∷ b ∷ c ∷ d ∷ dash ∷ e ∷ f ∷ []) =
    is_digit a
    && (is_digit b && (is_digit c && (is_digit d && ((dash == 45) && is_month_number e f))))
matches_month _ = false

-- `value[:4] == "0000"`
abbrev pub starts_with_zeros : List ℕ → Bool
starts_with_zeros (a ∷ b ∷ c ∷ d ∷ _) = (a == 48) && ((b == 48) && ((c == 48) && (d == 48)))
starts_with_zeros _ = false

-- The second test of `IntakeProposal.validate_intake`.
unfoldable pub validate_month : String → Result String
validate_month value =
    if not (matches_month (codes value)) || starts_with_zeros (codes value)
    then err "intake must be a valid calendar month in YYYY-MM"
    else ok value
