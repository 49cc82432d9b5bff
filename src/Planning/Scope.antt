-- ===== src/Planning/Scope.antt =====
-- `preferred_country_scope_is_valid` of planning/models.py: a scope is a non-empty tuple of
-- countries, sorted by the countries' texts and without a repetition.
use night_voyager.Base.{
  ◌==◌, nat_eq, string_eq, option_eq, is_empty, dedup, list_eq, Bool, not, ◌&&◌, List,
}
use night_voyager.Planning.Enums.{
  evidence_authority_eq, redistribution_class_eq, Country, country_eq, country_value,
  route_outcome_eq, run_state_eq, case_state_eq,
}
use night_voyager.Base.Order.{sorted_by}

-- `countries == tuple(sorted(set(countries), key=lambda country: country.value))`
unfoldable pub preferred_country_scope_is_valid : List Country → Bool
preferred_country_scope_is_valid value =
    not (is_empty value) && (value == sorted_by country_value (dedup value))
