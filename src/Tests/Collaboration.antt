-- ===== src/Tests/Collaboration.antt =====
-- Facts of the golden case.
use night_voyager.Base.{ℕ, ◌≤◌, ◌≡◌, refl, ◌↔◌, true, false, some, [], ◌∷◌}
use night_voyager.Base.Results.{ok}
use night_voyager.Base.Int.{pos}
use night_voyager.Identity.{ActorRole}
use night_voyager.Planning.Enums.{Country}
use night_voyager.Planning.Scope.{preferred_country_scope_is_valid}
use night_voyager.Decision.Intake.{year_and_month}
use night_voyager.Collaboration.Models.{
  japan_risk_accepted_proposal, validate_countries, validate_month,
}
use night_voyager.Collaboration.Policy.{role_allows_fact, apply_confirmed_fact}
use night_voyager.Collaboration.Scopes.{validate_countries_iff}
use night_voyager.Collaboration.Facts.{IsNextRevision, apply_confirmed_fact-IsNextRevision}
use night_voyager.Collaboration.Months.{year_and_month-validate_month}
use night_voyager.Tests.Golden.{case_revision}

validate_countries_iff_example :
    (validate_countries (Country.japan ∷ Country.malaysia ∷ [])
      ≡ ok (Country.japan ∷ Country.malaysia ∷ []))
    ↔ (preferred_country_scope_is_valid (Country.japan ∷ Country.malaysia ∷ []) ≡ true)
validate_countries_iff_example = validate_countries_iff (Country.japan ∷ Country.malaysia ∷ [])

parent_states_risk : role_allows_fact "parent" "family.japan_risk_accepted" ≡ true
unfolding role_allows_fact
parent_states_risk = refl

apply_confirmed_fact-IsNextRevision_example :
    IsNextRevision ActorRole.parent case_revision
      (apply_confirmed_fact case_revision (japan_risk_accepted_proposal false))
apply_confirmed_fact-IsNextRevision_example =
    apply_confirmed_fact-IsNextRevision ActorRole.parent case_revision
      (japan_risk_accepted_proposal false) parent_states_risk

february : validate_month "2027-02" ≡ ok "2027-02"
unfolding validate_month
february = refl

year_and_month-validate_month_example :
    (year : ℕ) × (month : ℕ) × (year_and_month "2027-02" ≡ some (pos year, pos month))
    × (1 ≤ year)
    × (1 ≤ month)
    × (month ≤ 12)
year_and_month-validate_month_example = year_and_month-validate_month "2027-02" february
