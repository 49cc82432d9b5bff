-- ===== src/Planning/Affordability.antt =====
-- The decimal comparison of `_australia`, read as a comparison of integers.
use native.Mathlib.Nat.{zero-add}
use night_voyager.Decimal.Exact.{elastic_exact, round_context-exact}
use night_voyager.Base.{ltb, if◌then◌else◌, ℕ, ◌+◌, ◌*◌, ◌^◌, ◌≤◌, ◌<◌, ◌≡◌, ◌↔◌, ◌||◌, arith}
use night_voyager.Decimal.{precision_bound, multiply, greater}
use night_voyager.Planning.Models.{CostEvidence}
use night_voyager.Planning.Routes.{
  total_cost, elastic_ceiling, exceeded, within_boundary, budget_outcome,
}

-- The amounts are small enough that no product is rounded: below 10 ^ 28.
abbrev pub IsExact : ℕ → ℕ → CostEvidence → Type 0
IsExact p bps c =
    ((c.tuition_minor + c.living_minor) * c.fx_rate.coefficient < precision_bound)
    × (p * (10000 + bps) < precision_bound)
    × (bps ≤ 2500)

-- The converted cost is at most the hard ceiling, and at most the preferred amount raised by the
-- elasticity, as exact fractions.
abbrev pub IsWithin : ℕ → ℕ → ℕ → CostEvidence → Type 0
IsWithin p h bps c =
    ((c.tuition_minor + c.living_minor) * c.fx_rate.coefficient ≤ h * 10 ^ c.fx_rate.scale)
    × ((c.tuition_minor + c.living_minor) * c.fx_rate.coefficient * 10000
        ≤ p * (10000 + bps) * 10 ^ c.fx_rate.scale)

total_cost_lem :
    (c : CostEvidence)
    → (c.tuition_minor + c.living_minor) * c.fx_rate.coefficient < precision_bound
    → total_cost c ≡ record {
      coefficient = (c.tuition_minor + c.living_minor) * c.fx_rate.coefficient;
      scale = c.fx_rate.scale;
    }
unfolding total_cost multiply
total_cost_lem c h =
    rw
      (round_context-exact ((c.tuition_minor + c.living_minor) * c.fx_rate.coefficient) h, zero-add)

branch_iff :
    (x y a b : ℕ)
    → ((if ltb x (a * 1) || ltb y b then exceeded else within_boundary) ≡ within_boundary)
      ↔ ((a ≤ x) × (b ≤ y))
branch_iff x y a b = ground arith

-- Where no product is rounded, Australia is recommended exactly when the exact cost is within
-- both ceilings; otherwise it is blocked.
pub budget_outcome_iff :
    (p h bps : ℕ) (c : CostEvidence)
    → IsExact p bps c
    → (budget_outcome p h bps c ≡ within_boundary) ↔ IsWithin p h bps c
unfolding budget_outcome greater elastic_ceiling
budget_outcome_iff p h bps c (cost_fits, ceiling_fits, bounded) =
    rw (total_cost_lem c cost_fits, elastic_exact p bps ceiling_fits (omega arith))
      (branch_iff (h * 10 ^ c.fx_rate.scale) (p * (10000 + bps) * 10 ^ c.fx_rate.scale)
        ((c.tuition_minor + c.living_minor) * c.fx_rate.coefficient)
        ((c.tuition_minor + c.living_minor) * c.fx_rate.coefficient * 10000))
