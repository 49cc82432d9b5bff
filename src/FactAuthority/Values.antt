-- ===== src/FactAuthority/Values.antt =====
-- `validate_collaboration_fact` of migrations/versions/0017_controlled_intake_revision.py, on a value
-- of the type that its key has. `unsafe` is the test of the length in bytes and of the regular
-- expressions on a text.
use night_voyager.Base.{
  ltb, if◌then◌else◌, is_none, ◌==◌, ◌!=◌, nat_eq, string_eq, option_eq, length, is_empty, contains,
  dedup, list_eq, ℕ, String, Bool, true, false, not, ◌&&◌, ◌||◌, Option, some, List, [], ◌∷◌,
}
use night_voyager.Base.Order.{sorted_by}
use night_voyager.Planning.Enums.{
  evidence_authority_eq, evidence_class_eq, redistribution_class_eq, Country, country_eq,
  country_value, route_outcome_eq, run_state_eq, case_state_eq,
}
use night_voyager.Planning.Models.{BudgetEnvelope}
use night_voyager.Collaboration.Models.{
  FactKey, student_intended_field, student_preferred_countries, student_intake, fact_key_eq,
  memory_candidate_state_eq, verification_decision_eq, FactProposal, intended_field_proposal,
  preferred_countries_proposal, intake_proposal, risk_tolerance_proposal,
  japan_risk_accepted_proposal, budget_proposal, fact_key_of, matches_month, starts_with_zeros,
}
use night_voyager.Decision.Intake.{codes}

abbrev is_student_key : FactKey → Bool
is_student_key key =
    contains key (student_intended_field ∷ student_preferred_countries ∷ student_intake ∷ [])

-- The test before 'unsupported collaboration fact'.
unfoldable pub is_unsupported : String → FactKey → Bool
is_unsupported role key =
    ((role == "student") && not (is_student_key key))
    || (((role == "parent") && is_student_key key)
        || not ((role == "student") || (role == "parent")))

unfoldable pub are_countries_unsafe : List Country → Bool
are_countries_unsafe value =
    is_empty value
    || (ltb 3 (length value)
        || ((length value != length (dedup value)) || (value != sorted_by country_value value)))

unfoldable pub is_intake_unsafe : String → Bool
is_intake_unsafe value = not (matches_month (codes value)) || starts_with_zeros (codes value)

-- The two amounts of a budget that is not refused.
abbrev are_amounts_unsafe : Option ℕ → Option ℕ → Bool
are_amounts_unsafe (some preferred) (some ceiling) =
    (preferred == 0) || ((ceiling == 0) || ltb ceiling preferred)
are_amounts_unsafe _ _ = true

unfoldable pub is_budget_unsafe : BudgetEnvelope → Bool
is_budget_unsafe b =
    (b.schema_version != 1)
    || ((b.currency != "CNY")
        || ((b.period != "program_total")
            || (ltb 2500 b.elasticity_bps
                || (if b.refused
                    then not (is_none b.preferred_minor) || not (is_none b.hard_ceiling_minor)
                    else are_amounts_unsafe b.preferred_minor b.hard_ceiling_minor))))

-- The tests before 'unsafe collaboration fact value'.
unfoldable pub is_value_unsafe : (String → Bool) → FactProposal → Bool
is_value_unsafe unsafe (intended_field_proposal value) = unsafe value
is_value_unsafe unsafe (preferred_countries_proposal value) = are_countries_unsafe value
is_value_unsafe unsafe (intake_proposal value) = is_intake_unsafe value
is_value_unsafe unsafe (risk_tolerance_proposal value) = false
is_value_unsafe unsafe (japan_risk_accepted_proposal value) = false
is_value_unsafe unsafe (budget_proposal value) = is_budget_unsafe value

-- `validate_collaboration_fact`, which raises NV006
unfoldable pub is_fact_refused : (String → Bool) → String → FactProposal → Bool
is_fact_refused unsafe role value =
    is_unsupported role (fact_key_of value) || is_value_unsafe unsafe value
