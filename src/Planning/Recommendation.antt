-- ===== src/Planning/Recommendation.antt =====
-- When `evaluate_planning_run` ends in a recommendation.
use mathlib.Core.Path.{subst}
use night_voyager.Base.{
  if◌then◌else◌, Bool-cases, Option-cases, and_true, ◌==◌, nat_eq, string_eq, eq_of_beq, option_eq,
  count_if, contains, list_eq, ℕ, String, ◌≡◌, refl, sym, ap, ◌∙◌, ◌↔◌, inl, inr, Bool, true, false,
  ◌&&◌, Option, none, some, List, [], ◌∷◌, map, arith,
}
use night_voyager.Base.ListLaws.{Unique}
use night_voyager.Decimal.{of_int, greater}
use night_voyager.Planning.Enums.{
  evidence_authority_eq, redistribution_class_eq, Country, australia, japan, malaysia, country_eq,
  RouteOutcome, recommended_with_condition, route_outcome_eq, review_required, run_state_beq_iff,
  run_state_eq, case_state_eq,
}
use night_voyager.Planning.Models.{
  BudgetEnvelope, CostEvidence, PlanningInput, RouteResult, PlanningResult,
}
use night_voyager.Planning.Scope.{preferred_country_scope_is_valid}
use night_voyager.Planning.Contract.{validate_contract}
use night_voyager.Planning.Routes.{
  route_result, australia_cost, is_complete, total_cost, elastic_ceiling, budget_outcome,
  assert_budget, australia_outcome, australia_route,
}
use night_voyager.Planning.Policy.{
  japan_route, malaysia_route, route_of, is_recommended, conclude, assess_routes,
  evaluate_planning_run,
}
use night_voyager.Planning.ScopeLaws.{scope-Unique}
use night_voyager.Planning.Admission.{IsAdmitted, evaluate-IsAdmitted, evaluate_of_IsAdmitted}

-- A cost row is within both ceilings of a budget.
abbrev pub IsAffordable : BudgetEnvelope → CostEvidence → Type 0
IsAffordable b c =
    (p : ℕ) × (h : ℕ) × (b.preferred_minor ≡ some p)
    × (b.hard_ceiling_minor ≡ some h)
    × (greater (total_cost c) (of_int h) ≡ false)
    × (greater (total_cost c) (elastic_ceiling p b.elasticity_bps) ≡ false)

-- What the recommendation of Australia rests on.
pub record IsRecommendable (i : PlanningInput) : Type 0 where
  pub admitted : IsAdmitted i
  pub in_scope : contains australia i.case.student.preferred_countries ≡ true
  pub budget_given : i.case.family.budget.refused ≡ false
  pub evidence_complete : is_complete i ≡ true
  pub affordable :
      (c : CostEvidence) × (australia_cost i ≡ some c) × IsAffordable i.case.family.budget c

assert_recommended :
    (b : BudgetEnvelope) (cost : Option CostEvidence) (reason : String)
    → assert_budget b cost ≡ some (recommended_with_condition, reason)
    → (c : CostEvidence) × (cost ≡ some c) × IsAffordable b c
unfolding budget_outcome
assert_recommended b none reason h = cc
assert_recommended b (some c) reason h = (c, refl, ground arith)

recommended_australia :
    (i : PlanningInput) (reason : String)
    → australia_outcome i ≡ some (recommended_with_condition, reason)
    → (i.case.family.budget.refused ≡ false)
      × (is_complete i ≡ true)
      × ((c : CostEvidence) × (australia_cost i ≡ some c) × IsAffordable i.case.family.budget c)
unfolding australia_outcome
recommended_australia i reason h = elim (Bool-cases i.case.family.budget.refused) [
  | inl refused ↦ absurd (ground arith)
  | inr given ↦ elim (Bool-cases (is_complete i)) [
    | inr incomplete ↦ absurd (ground arith)
    | inl complete ↦ (
      given,
      complete,
      assert_recommended i.case.family.budget (australia_cost i) reason (ground arith),
    )
  ]
]

affordable_outcome :
    (b : BudgetEnvelope) (c : CostEvidence)
    → IsAffordable b c
    → assert_budget b (some c)
      ≡ some (recommended_with_condition, "complete_cost_and_fx_within_boundary")
unfolding budget_outcome
affordable_outcome b c (p, h, ep, eh, hard, elastic) = ground arith

not_recommended :
    (i : PlanningInput) (a : RouteResult) (c : Country)
    → is_recommended (route_of i a c) ≡ ((c == australia) && is_recommended a)
unfolding japan_route malaysia_route route_result
not_recommended i a australia = refl
not_recommended i a japan = ground arith
not_recommended i a malaysia = ground arith

count_in_scope :
    (i : PlanningInput) (a : RouteResult) (cs : List Country)
    → Unique cs
    → count_if is_recommended (map (route_of i a) cs)
      ≡ (if is_recommended a && contains australia cs then 1 else 0)
count_in_scope i a [] u = ground arith
count_in_scope i a (c ∷ cs) u = ground (arith, not_recommended i a c, count_in_scope i a cs)

abbrev pub is_review_required : Option PlanningResult → Bool
is_review_required none = false
is_review_required (some r) = r.state == review_required

-- The route of Australia is there and recommended.
abbrev RecommendsAustralia : PlanningInput → Type 0
RecommendsAustralia i =
    (reason : String) × (australia_outcome i ≡ some (recommended_with_condition, reason))

pub some_route :
    (i : PlanningInput) (p : RouteOutcome × String) (a : RouteResult)
    → australia_outcome i ≡ some p
    → australia_route i ≡ some a
    → a ≡ route_result australia p.0 p.1 i.evidence
unfolding australia_route
some_route i p a e h = ground arith

route-recommended :
    (i : PlanningInput) {a : RouteResult}
    → australia_route i ≡ some a
    → is_recommended a ≡ true
    → RecommendsAustralia i
unfolding australia_route route_result
route-recommended i {a} h rec = elim (Option-cases (australia_outcome i)) [
  | inl missing ↦ absurd (ground arith)
  | inr (p, e) ↦
      let outcome : p.0 ≡ recommended_with_condition =
        eq_of_beq (subst (λ x. is_recommended x ≡ true) (some_route i p a e h) rec) in
      (p.1, e ∙ ap (λ o. some (o, p.1)) outcome)
]

contract-scope :
    (i : PlanningInput)
    → validate_contract i ≡ none
    → preferred_country_scope_is_valid i.case.student.preferred_countries ≡ true
unfolding validate_contract
contract-scope i h = ground arith

conclude-review :
    (rs : List RouteResult)
    → ((conclude rs).state == review_required) ≡ (count_if is_recommended rs == 1)
conclude-review rs = ground arith

pub assess_routes_of :
    (i : PlanningInput) {a : RouteResult}
    → australia_route i ≡ some a
    → assess_routes i ≡ some (conclude (map (route_of i a) i.case.student.preferred_countries))
unfolding assess_routes
assess_routes_of i h = rw (h, assess_routes)

abbrev is_one : ℕ → Bool
is_one n = n == 1

one_if : (b : Bool) → is_one (if b then 1 else 0) ≡ b
one_if true = refl
one_if false = refl

-- For an admitted input the run's state is that of Australia's route, if the scope has it.
admitted_review :
    (i : PlanningInput) {a : RouteResult}
    → IsAdmitted i
    → australia_route i ≡ some a
    → is_review_required (evaluate_planning_run i)
      ≡ (is_recommended a && contains australia i.case.student.preferred_countries)
admitted_review i {a} ok_input h =
    rw (evaluate_of_IsAdmitted i ok_input, assess_routes_of i h)
      (conclude-review (map (route_of i a) i.case.student.preferred_countries)
        ∙ ap is_one (
            count_in_scope i a i.case.student.preferred_countries
              (scope-Unique i.case.student.preferred_countries (contract-scope i ok_input.0)))
        ∙ one_if _)

pub review-route :
    (i : PlanningInput) {r : PlanningResult}
    → assess_routes i ≡ some r
    → (a : RouteResult) × (australia_route i ≡ some a)
unfolding assess_routes
review-route i h = elim (Option-cases (australia_route i)) [
  | inl missing ↦ absurd (ground arith)
  | inr found ↦ found
]

review-IsRecommendable :
    (i : PlanningInput) (r : PlanningResult)
    → evaluate_planning_run i ≡ some r
    → r.state ≡ review_required
    → IsRecommendable i
review-IsRecommendable i r h review =
    let ok_input = evaluate-IsAdmitted i h (λ e. cc) in
    let (a, route) = review-route i (sym (evaluate_of_IsAdmitted i ok_input) ∙ h) in
    let both = and_true (is_recommended a) _ (
      sym (admitted_review i ok_input route)
      ∙ ap is_review_required h
      ∙ (run_state_beq_iff r.state review_required).1 review) in
    let (reason, outcome) = route-recommended i route both.0 in
    let (given, complete, affordable) = recommended_australia i reason outcome in
    record {
      admitted = ok_input;
      in_scope = both.1;
      budget_given = given;
      evidence_complete = complete;
      affordable = affordable;
    }

pub australia_route_of :
    (i : PlanningInput) {o : RouteOutcome} {reason : String}
    → australia_outcome i ≡ some (o, reason)
    → australia_route i ≡ some (route_result australia o reason i.evidence)
unfolding australia_route
australia_route_of i e = rw (e, australia_route)

recommendable_route :
    (i : PlanningInput)
    → IsRecommendable i
    → australia_route i
      ≡ some (
          route_result australia recommended_with_condition "complete_cost_and_fx_within_boundary"
            i.evidence)
recommendable_route i h =
    let (c, cost, within) = h.affordable in
    australia_route_of i (
      unfold australia_outcome in
      simp (h.budget_given, h.evidence_complete, cost)
        (affordable_outcome i.case.family.budget c within))

-- A run asks for review exactly when its input is admitted, Australia is among the preferred
-- countries, a budget is given, the four claims and the cost row are complete, and the cost row
-- lies within both ceilings.
pub review_required_iff :
    (i : PlanningInput) → (is_review_required (evaluate_planning_run i) ≡ true) ↔ IsRecommendable i
unfolding route_result
review_required_iff i = (forth, back)
  where
    forth : is_review_required (evaluate_planning_run i) ≡ true → IsRecommendable i
    forth h = elim (Option-cases (evaluate_planning_run i)) [
      | inl missing ↦ absurd (ground arith)
      | inr (r, e) ↦ review-IsRecommendable i r e (eq_of_beq (sym (ap is_review_required e) ∙ h))
    ]

    back : IsRecommendable i → is_review_required (evaluate_planning_run i) ≡ true
    back h = admitted_review i h.admitted (recommendable_route i h) ∙ h.in_scope
