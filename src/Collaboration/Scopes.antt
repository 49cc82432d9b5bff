-- ===== src/Collaboration/Scopes.antt =====
-- The proposal's validator of countries, and the scope that a planning run requires.
use night_voyager.Base.Order.{sorted_by}
use night_voyager.Base.ListLaws.{is_unique-Unique, Unique-is_unique}
use night_voyager.Base.OrderLaws.{Unique-of_sorted, dedup_of_Unique}
use night_voyager.Base.{
  ◌==◌, nat_eq, string_eq, option_eq, dedup, list_eq, is_unique, ◌≡◌, sym, ap, ◌∙◌, ◌↔◌, true, List,
  arith,
}
use night_voyager.Base.Results.{ok}
use night_voyager.Planning.Enums.{
  evidence_authority_eq, evidence_class_eq, redistribution_class_eq, Country, country_eq,
  country_value, route_outcome_eq, run_state_eq, case_state_eq,
}
use night_voyager.Planning.Scope.{preferred_country_scope_is_valid}
use night_voyager.Collaboration.Models.{
  fact_key_eq, memory_candidate_state_eq, verification_decision_eq, validate_countries,
}

scope_of_valid :
    (value : List Country)
    → validate_countries value ≡ ok value
    → preferred_country_scope_is_valid value ≡ true
unfolding validate_countries preferred_country_scope_is_valid
scope_of_valid value h =
    let unique : is_unique value ≡ true = ground arith in
    let same : dedup value ≡ value =
      dedup_of_Unique country_value value (is_unique-Unique value unique) in
    let sorted : (value == sorted_by country_value value) ≡ true = ground arith in
    let goal : (value == sorted_by country_value (dedup value)) ≡ true =
      ap (λ xs. value == sorted_by country_value xs) same ∙ sorted in
    ground (arith, goal)

valid_of_scope :
    (value : List Country)
    → preferred_country_scope_is_valid value ≡ true
    → validate_countries value ≡ ok value
unfolding validate_countries preferred_country_scope_is_valid
valid_of_scope value h =
    let sorted : (value == sorted_by country_value (dedup value)) ≡ true = ground arith in
    let distinct = Unique-of_sorted country_value value sorted in
    let same : dedup value ≡ value = dedup_of_Unique country_value value distinct in
    let unique : is_unique value ≡ true = Unique-is_unique value distinct in
    let kept : (value == sorted_by country_value value) ≡ true =
      ap (λ xs. value == sorted_by country_value xs) (sym same) ∙ sorted in
    ground (arith, unique, kept)

-- A list of countries is accepted as a fact exactly if it is a valid scope of a planning run.
pub validate_countries_iff :
    (value : List Country)
    → (validate_countries value ≡ ok value) ↔ (preferred_country_scope_is_valid value ≡ true)
validate_countries_iff value = (scope_of_valid value, valid_of_scope value)
