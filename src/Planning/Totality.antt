-- ===== src/Planning/Totality.antt =====
-- The two assertions of `_australia` never fail on a budget that the validator has built.
use night_voyager.Base.Results.{ok, bind-eq-ok}
use night_voyager.Base.Int.{ℤ, pos, negsuc}
use night_voyager.Base.{
  Bool-cases, Option-cases, ◌==◌, nat_eq, string_eq, eq_of_beq, option_eq, list_eq, ℕ, ◌≤◌, ◌<◌,
  String, ◌≡◌, refl, ◌∙◌, inl, inr, Bool, true, false, Option, none, some, map, arith,
}
use night_voyager.Planning.Enums.{
  evidence_authority_eq, redistribution_class_eq, australia, country_eq, RouteOutcome,
  route_outcome_eq, run_state_eq, case_state_eq,
}
use night_voyager.Planning.Models.{BudgetEnvelope, CostEvidence, PlanningInput, PlanningResult}
use night_voyager.Planning.Budget.{
  RawBudget, positive_int, optional_positive_int, bounded_bps, check_amounts, validate_budget,
  HasAmounts, IsEnvelope,
}
use night_voyager.Planning.Contract.{validate_contract}
use night_voyager.Planning.Provenance.{validate_provenance}
use night_voyager.Planning.Routes.{
  route_result, australia_cost, is_complete, budget_outcome, assert_budget, australia_outcome,
}
use night_voyager.Planning.Policy.{failed_result, route_of, conclude, evaluate_planning_run}
use night_voyager.Planning.Admission.{evaluate_of_IsAdmitted}
use night_voyager.Planning.Recommendation.{assess_routes_of, australia_route_of}

positive_int-pos : (z : ℤ) {n : ℕ} → positive_int z ≡ ok n → 0 < n
unfolding positive_int
positive_int-pos (pos n) h = ground arith
positive_int-pos (negsuc n) h = cc

-- An amount that is given is positive.
abbrev IsPositive : Option ℕ → Type 0
IsPositive none = Unit
IsPositive (some n) = 0 < n

optional-IsPositive : (z : Option ℤ) {o : Option ℕ} → optional_positive_int z ≡ ok o → IsPositive o
unfolding optional_positive_int
optional-IsPositive none {o = none} h = tt
optional-IsPositive none {o = some n} h = ground arith
optional-IsPositive (some z) {o = none} h = tt
optional-IsPositive (some z) {o = some n} h =
    let (m, e, same) = bind-eq-ok (positive_int z) (λ k. ok (some k)) h in
    ground (arith, positive_int-pos z {n = m} e)

bounded_bps-le : (z : ℤ) {n : ℕ} → bounded_bps z ≡ ok n → n ≤ 2500
unfolding bounded_bps
bounded_bps-le (pos n) h = ground arith
bounded_bps-le (negsuc n) h = cc

check_amounts-HasAmounts :
    (refused : Bool) (p h : Option ℕ) {u : Unit {0}}
    → IsPositive p
    → check_amounts refused p h ≡ ok u
    → HasAmounts refused p h
unfolding check_amounts
check_amounts-HasAmounts true none none q e = (refl, refl)
check_amounts-HasAmounts true none (some h) q e = ground arith
check_amounts-HasAmounts true (some p) h q e = ground arith
check_amounts-HasAmounts false none h q e = ground arith
check_amounts-HasAmounts false (some p) none q e = ground arith
check_amounts-HasAmounts false (some p) (some h) q e = (p, h, refl, refl, q, ground arith)

abbrev BudgetParts : RawBudget → BudgetEnvelope → Type 0
BudgetParts raw b =
    (optional_positive_int raw.preferred_minor ≡ ok b.preferred_minor)
    × (bounded_bps raw.elasticity_bps ≡ ok b.elasticity_bps)
    × (check_amounts b.refused b.preferred_minor b.hard_ceiling_minor ≡ ok tt)
    × ((b.currency == "CNY") ≡ true)
    × ((b.period == "program_total") ≡ true)

budget_parts :
    (raw : RawBudget) (b : BudgetEnvelope) → validate_budget raw ≡ ok b → BudgetParts raw b
unfolding validate_budget
budget_parts raw b h = ground arith

-- Whatever raw values it is given, the validator builds a budget only with an elasticity of at
-- most 2500 basis points, the currency and period of the programme, and either no amount (a
-- refused budget) or a positive preferred amount that is at most the hard ceiling.
pub validate_budget-IsEnvelope :
    (raw : RawBudget) {b : BudgetEnvelope} → validate_budget raw ≡ ok b → IsEnvelope b
validate_budget-IsEnvelope raw {b} h =
    let (preferred, bps, amounts, currency, period) = budget_parts raw b h in
    record {
      elasticity = bounded_bps-le raw.elasticity_bps bps;
      currency = eq_of_beq currency;
      period = eq_of_beq period;
      amounts =
          check_amounts-HasAmounts b.refused b.preferred_minor b.hard_ceiling_minor
            (optional-IsPositive raw.preferred_minor preferred) amounts;
    }

complete_cost :
    (i : PlanningInput) → is_complete i ≡ true → (c : CostEvidence) × (australia_cost i ≡ some c)
unfolding is_complete
complete_cost i h = elim (Option-cases (australia_cost i)) [
  | inl missing ↦ absurd (ground arith)
  | inr found ↦ found
]

given_amounts :
    (refused : Bool) (p h : Option ℕ)
    → refused ≡ false
    → HasAmounts refused p h
    → (m : ℕ) × (n : ℕ) × (p ≡ some m) × (h ≡ some n)
given_amounts true p h given amounts = cc
given_amounts false p h given (m, n, ep, eh, _, _) = (m, n, ep, eh)

assert_budget_of :
    (b : BudgetEnvelope) (c : CostEvidence) (m n : ℕ)
    → b.preferred_minor ≡ some m
    → b.hard_ceiling_minor ≡ some n
    → assert_budget b (some c) ≡ some (budget_outcome m n b.elasticity_bps c)
assert_budget_of b c m n ep eh = ground arith

australia_outcome-total :
    (i : PlanningInput)
    → IsEnvelope i.case.family.budget
    → (p : RouteOutcome × String) × (australia_outcome i ≡ some p)
unfolding australia_outcome
australia_outcome-total i v = elim (Bool-cases i.case.family.budget.refused) [
  | inl refused ↦ ((RouteOutcome.blocked, "budget_refused"), simp refused)
  | inr given ↦ elim (Bool-cases (is_complete i)) [
    | inr incomplete ↦
        ((RouteOutcome.blocked, "cost_or_fx_evidence_incomplete"), simp (given, incomplete))
    | inl complete ↦
        let (c, cost) = complete_cost i complete in
        let (m, n, ep, eh) = given_amounts i.case.family.budget.refused _ _ given v.amounts in
        (
          budget_outcome m n i.case.family.budget.elasticity_bps c,
          simp (given, complete, cost) (assert_budget_of i.case.family.budget c m n ep eh),
        )
  ]
]

abbrev assessed : PlanningInput → RouteOutcome × String → PlanningResult
assessed i p = conclude (
    map (route_of i (route_result australia p.0 p.1 i.evidence)) i.case.student.preferred_countries)

-- On a checked budget the evaluation returns a result for every input: neither assertion fails.
pub evaluate-total :
    (i : PlanningInput)
    → IsEnvelope i.case.family.budget
    → (r : PlanningResult) × (evaluate_planning_run i ≡ some r)
unfolding evaluate_planning_run
evaluate-total i v =
    let (p, outcome) = australia_outcome-total i v in
    elim (Option-cases (validate_contract i)) [
      | inr (reason, e) ↦ (failed_result reason, rw (e, evaluate_planning_run))
      | inl contract ↦ elim (Option-cases (validate_provenance i)) [
        | inr (reason, e) ↦ (failed_result reason, rw (contract, e, evaluate_planning_run))
        | inl provenance ↦ (
          assessed i p,
          evaluate_of_IsAdmitted i (contract, provenance)
              ∙ assess_routes_of i (australia_route_of i outcome),
        )
      ]
    ]
