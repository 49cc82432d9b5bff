-- ===== src/Planning/Report.antt =====
-- What the routes of a result report: their countries, and the evidence that they cite.
use mathlib.Core.List.{Memᴰ}
use mathlib.Core.Path.{subst}
use night_voyager.Base.{
  if◌then◌else◌, Option-cases, eq_of_some, nat_eq, string_eq, option_eq, All, list_eq, String, ◌≡◌,
  refl, sym, ap, ◌∙◌, ◌≢◌, inl, inr, Bool, true, false, some, List, [], ◌∷◌, map, arith,
}
use night_voyager.Base.ListLaws.{All-imp, dict_get-eq-some}
use night_voyager.Planning.Enums.{
  evidence_authority_eq, redistribution_class_eq, Country, australia, japan, malaysia, country_eq,
  RouteOutcome, route_outcome_eq, EvidenceRole, RunState, run_state_eq, case_state_eq,
}
use night_voyager.Planning.Models.{
  EvidenceRef, PlanningInput, EvidenceUse, RouteResult, PlanningResult,
}
use night_voyager.Planning.Routes.{
  get_evidence_by_claim, has_claim, claims_by_country, evidence_uses, route_result,
  australia_outcome, australia_route,
}
use night_voyager.Planning.Policy.{
  japan_is_open, japan_route, malaysia_route, route_of, conclude, assess_routes,
  evaluate_planning_run,
}
use night_voyager.Planning.Admission.{evaluate-IsAdmitted, evaluate_of_IsAdmitted}
use night_voyager.Planning.Recommendation.{some_route, assess_routes_of, review-route}

-- A use cites an item of the evidence that carries one of the listed claims, in that claim's role.
abbrev pub IsCited : List EvidenceRef → List (String × EvidenceRole) → EvidenceUse → Type 0
IsCited evidence claims u =
    (e : EvidenceRef) × Memᴰ e evidence
    × (u.evidence_id ≡ e.evidence_id)
    × Memᴰ {A = String × EvidenceRole} (e.claim, u.role) claims

IsCited-weaken :
    (evidence : List EvidenceRef) (c : String × EvidenceRole) (cs : List (String × EvidenceRole))
    (u : EvidenceUse)
    → IsCited evidence cs u
    → IsCited evidence (c ∷ cs) u
IsCited-weaken evidence c cs u (e, m, same, k) = (e, m, same, Memᴰ.tail k)

pub evidence_uses-IsCited :
    (evidence : List EvidenceRef) (claims : List (String × EvidenceRole))
    → All (IsCited evidence claims) (evidence_uses evidence claims)
unfolding evidence_uses
evidence_uses-IsCited evidence [] = tt
evidence_uses-IsCited evidence ((claim, role) ∷ cs) =
    let rest =
      All-imp (IsCited-weaken evidence (claim, role) cs) (evidence_uses evidence cs)
        (evidence_uses-IsCited evidence cs) in
    elim (Option-cases (get_evidence_by_claim evidence claim)) [
      | inl missing ↦ rw missing rest
      | inr (e, found) ↦
          let r = dict_get-eq-some (λ x. x.claim) claim evidence found in
          rw found ((e, r.1, refl, Memᴰ.head (ap (λ (s : String). (s, role)) r.0)), rest)
    ]

-- Every dimension of a route cites evidence for its country.
abbrev pub IsGrounded : List EvidenceRef → RouteResult → Type 0
IsGrounded evidence r =
    All (λ d. All (IsCited evidence (claims_by_country r.country)) d.evidence_uses) r.dimensions

route_result-IsGrounded :
    (c : Country) (o : RouteOutcome) (reason : String) (evidence : List EvidenceRef)
    → IsGrounded evidence (route_result c o reason evidence)
unfolding route_result
route_result-IsGrounded c o reason evidence =
    (evidence_uses-IsCited evidence (claims_by_country c), tt)

-- A route of a country, which cites evidence for it.
abbrev pub IsRouteOf : PlanningInput → Country → RouteResult → Type 0
IsRouteOf i c r = (r.country ≡ c) × IsGrounded i.evidence r

route_result-IsRouteOf :
    (i : PlanningInput) (c : Country) (o : RouteOutcome) (reason : String)
    → IsRouteOf i c (route_result c o reason i.evidence)
unfolding route_result
route_result-IsRouteOf i c o reason = (refl, route_result-IsGrounded c o reason i.evidence)

either-IsRouteOf :
    (i : PlanningInput) (c : Country) (b : Bool) (x y : RouteResult)
    → IsRouteOf i c x
    → IsRouteOf i c y
    → IsRouteOf i c (if b then x else y)
either-IsRouteOf i c true x y hx hy = hx
either-IsRouteOf i c false x y hx hy = hy

australia_route-IsRouteOf :
    (i : PlanningInput) (a : RouteResult) → australia_route i ≡ some a → IsRouteOf i australia a
unfolding australia_route
australia_route-IsRouteOf i a h = elim (Option-cases (australia_outcome i)) [
  | inl missing ↦ absurd (ground arith)
  | inr ((o, reason), e) ↦
      subst (IsRouteOf i australia) (sym (some_route i (o, reason) a e h))
        (route_result-IsRouteOf i australia o reason)
]

route_of-IsRouteOf :
    (i : PlanningInput) (a : RouteResult)
    → IsRouteOf i australia a
    → (c : Country) → IsRouteOf i c (route_of i a c)
unfolding japan_route malaysia_route
route_of-IsRouteOf i a h australia = h
route_of-IsRouteOf i a h japan =
    either-IsRouteOf i japan (japan_is_open i) _ _
      (route_result-IsRouteOf i japan RouteOutcome.conditional "synthetic_high_risk_alternative")
      (route_result-IsRouteOf i japan RouteOutcome.blocked "japan_risk_or_program_fit_unresolved")
route_of-IsRouteOf i a h malaysia =
    either-IsRouteOf i malaysia (has_claim i.evidence "malaysia_program_fit") _ _
      (route_result-IsRouteOf i malaysia RouteOutcome.conditional "malaysia_program_fit_present")
      (route_result-IsRouteOf i malaysia RouteOutcome.blocked "direct_program_fit_evidence_absent")

abbrev pub Reports : PlanningInput → List RouteResult → Type 0
Reports i rs =
    (map (λ r. r.country) rs ≡ i.case.student.preferred_countries) × All (IsGrounded i.evidence) rs

map-route_of :
    (i : PlanningInput) (a : RouteResult) (h : IsRouteOf i australia a) (cs : List Country)
    → (map (λ r. r.country) (map (route_of i a) cs) ≡ cs)
      × All (IsGrounded i.evidence) (map (route_of i a) cs)
map-route_of i a h [] = (refl, tt)
map-route_of i a h (c ∷ cs) =
    let first = route_of-IsRouteOf i a h c in
    let rest = map-route_of i a h cs in (cc (first.0, rest.0), (first.1, rest.1))

conclude-routes : (rs : List RouteResult) → (conclude rs).routes ≡ rs
conclude-routes rs = ground arith

-- A run that does not fail has one route for each preferred country, in their order, and every
-- evidence item that a route cites is in the input's evidence, with a claim about that country
-- and in the role of that claim.
pub evaluate-Reports :
    (i : PlanningInput) {r : PlanningResult}
    → evaluate_planning_run i ≡ some r
    → r.state ≢ RunState.failed
    → Reports i r.routes
evaluate-Reports i {r} h live =
    let assessed : assess_routes i ≡ some r =
      sym (evaluate_of_IsAdmitted i (evaluate-IsAdmitted i h live)) ∙ h in
    let (a, route) = review-route i assessed in
    let concluded : conclude (map (route_of i a) i.case.student.preferred_countries) ≡ r =
      eq_of_some (sym (assess_routes_of i route) ∙ assessed) in
    subst (λ x. Reports i x.routes) concluded
      (subst (Reports i) (sym (conclude-routes _))
        (map-route_of i a (australia_route-IsRouteOf i a route) i.case.student.preferred_countries))
