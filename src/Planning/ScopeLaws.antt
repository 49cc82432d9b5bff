-- ===== src/Planning/ScopeLaws.antt =====
-- What a valid country scope is (`preferred_country_scope_is_valid`).
use night_voyager.Base.{
  and_true, ◌==◌, nat_eq, string_eq, option_eq, is_empty, All, contains, list_eq, ◌≡◌, refl, sym,
  ◌∙◌, ◌↔◌, true, not, ◌&&◌, List, [], ◌∷◌, arith,
}
use night_voyager.Base.ListLaws.{All_mem, contains_mem, Unique}
use night_voyager.Base.OrderLaws.{Unique-of_sorted, dedup_of_Unique}
use night_voyager.Base.Order.{sorted_by}
use night_voyager.Planning.Enums.{
  evidence_authority_eq, redistribution_class_eq, Country, australia, japan, malaysia, country_eq,
  country_value, route_outcome_eq, run_state_eq, case_state_eq,
}
use night_voyager.Planning.Scope.{preferred_country_scope_is_valid}

pub scope-Unique : (cs : List Country) → preferred_country_scope_is_valid cs ≡ true → Unique cs
unfolding preferred_country_scope_is_valid
scope-Unique cs h = Unique-of_sorted country_value cs (and_true (not (is_empty cs)) _ h).1

-- The seven scopes.
abbrev pub scopes : List (List Country)
scopes =
    (australia ∷ [])
    ∷ (japan ∷ [])
    ∷ (malaysia ∷ [])
    ∷ (australia ∷ japan ∷ [])
    ∷ (australia ∷ malaysia ∷ [])
    ∷ (japan ∷ malaysia ∷ [])
    ∷ (australia ∷ japan ∷ malaysia ∷ [])
    ∷ []

-- Four countries repeat one.
four_countries : (a b c d : Country) (cs : List Country) → Unique (a ∷ b ∷ c ∷ d ∷ cs) → ⊥
four_countries australia b c d cs u = ground arith
four_countries japan b c d cs u = ground arith
four_countries malaysia b c d cs u = ground arith

-- Without a repetition, a list that is sorted is one of the seven.
Unique-scope :
    (cs : List Country)
    → Unique cs
    → (not (is_empty cs) && (cs == sorted_by country_value cs)) ≡ contains cs scopes
Unique-scope [] u = refl
Unique-scope (australia ∷ []) u = refl
Unique-scope (japan ∷ []) u = refl
Unique-scope (malaysia ∷ []) u = refl
Unique-scope (australia ∷ australia ∷ []) u = ground arith
Unique-scope (australia ∷ japan ∷ []) u = refl
Unique-scope (australia ∷ malaysia ∷ []) u = refl
Unique-scope (japan ∷ australia ∷ []) u = refl
Unique-scope (japan ∷ japan ∷ []) u = ground arith
Unique-scope (japan ∷ malaysia ∷ []) u = refl
Unique-scope (malaysia ∷ australia ∷ []) u = refl
Unique-scope (malaysia ∷ japan ∷ []) u = refl
Unique-scope (malaysia ∷ malaysia ∷ []) u = ground arith
Unique-scope (australia ∷ australia ∷ australia ∷ []) u = ground arith
Unique-scope (australia ∷ australia ∷ japan ∷ []) u = ground arith
Unique-scope (australia ∷ australia ∷ malaysia ∷ []) u = ground arith
Unique-scope (australia ∷ japan ∷ australia ∷ []) u = ground arith
Unique-scope (australia ∷ japan ∷ japan ∷ []) u = ground arith
Unique-scope (australia ∷ japan ∷ malaysia ∷ []) u = refl
Unique-scope (australia ∷ malaysia ∷ australia ∷ []) u = ground arith
Unique-scope (australia ∷ malaysia ∷ japan ∷ []) u = refl
Unique-scope (australia ∷ malaysia ∷ malaysia ∷ []) u = ground arith
Unique-scope (japan ∷ australia ∷ australia ∷ []) u = ground arith
Unique-scope (japan ∷ australia ∷ japan ∷ []) u = ground arith
Unique-scope (japan ∷ australia ∷ malaysia ∷ []) u = refl
Unique-scope (japan ∷ japan ∷ australia ∷ []) u = ground arith
Unique-scope (japan ∷ japan ∷ japan ∷ []) u = ground arith
Unique-scope (japan ∷ japan ∷ malaysia ∷ []) u = ground arith
Unique-scope (japan ∷ malaysia ∷ australia ∷ []) u = refl
Unique-scope (japan ∷ malaysia ∷ japan ∷ []) u = ground arith
Unique-scope (japan ∷ malaysia ∷ malaysia ∷ []) u = ground arith
Unique-scope (malaysia ∷ australia ∷ australia ∷ []) u = ground arith
Unique-scope (malaysia ∷ australia ∷ japan ∷ []) u = refl
Unique-scope (malaysia ∷ australia ∷ malaysia ∷ []) u = ground arith
Unique-scope (malaysia ∷ japan ∷ australia ∷ []) u = refl
Unique-scope (malaysia ∷ japan ∷ japan ∷ []) u = ground arith
Unique-scope (malaysia ∷ japan ∷ malaysia ∷ []) u = ground arith
Unique-scope (malaysia ∷ malaysia ∷ australia ∷ []) u = ground arith
Unique-scope (malaysia ∷ malaysia ∷ japan ∷ []) u = ground arith
Unique-scope (malaysia ∷ malaysia ∷ malaysia ∷ []) u = ground arith
Unique-scope (a ∷ b ∷ c ∷ d ∷ cs) u = absurd (four_countries a b c d cs u)

scopes-Unique : All Unique scopes
scopes-Unique = ground arith

-- A scope is valid exactly when it is one of the seven.
pub scope_iff :
    (cs : List Country) → (preferred_country_scope_is_valid cs ≡ true) ↔ (contains cs scopes ≡ true)
scope_iff cs = (forth, back)
  where
    same : Unique cs → preferred_country_scope_is_valid cs ≡ contains cs scopes
    same u =
        unfold preferred_country_scope_is_valid in
        rw (dedup_of_Unique country_value cs u) (Unique-scope cs u)

    forth : preferred_country_scope_is_valid cs ≡ true → contains cs scopes ≡ true
    forth h = sym (same (scope-Unique cs h)) ∙ h

    back : contains cs scopes ≡ true → preferred_country_scope_is_valid cs ≡ true
    back h = same (All_mem Unique scopes scopes-Unique (contains_mem cs scopes h)) ∙ h
