-- ===== src/Decimal/Exact.antt =====
-- Decimal arithmetic below the precision is exact, and past it the error is half a unit.
use night_voyager.Base.{
  ltb, nat_beq, nat_beq_iff, Bool-cases, ℕ, zero, suc, ◌+◌, ◌*◌, ◌/◌, ◌^◌, ◌≤◌, ◌<◌, ◌≡◌, refl, inl,
  inr, arith,
}
use night_voyager.Decimal.{
  Decimal, precision_bound, excess_digits, half_even, round_context, of_int, multiply, add,
  divide_ten_thousand, greater,
}
use native.Mathlib.Nat.{
  zero-add, div-add-mod', mod-lt, pow-succ', div-div-eq-div-mul, mul-le-mul_right, mul_comm,
}

excess_digits-zero : (f c : ℕ) → c < precision_bound → excess_digits f c ≡ 0
unfolding excess_digits
excess_digits-zero zero c h = refl
excess_digits-zero (suc f) c h = ground arith

pub round_context-exact : (c : ℕ) → c < precision_bound → round_context c ≡ c
unfolding round_context
round_context-exact c h = ground (arith, excess_digits-zero c c h)

-- Rounding to a multiple of a unit moves a coefficient by at most half the unit.
half_even_error :
    (c u : ℕ) → 0 < u → (2 * half_even c u ≤ 2 * c + u) × (2 * c ≤ 2 * half_even c u + u)
half_even_error c u h = ground (arith, div-add-mod' c u, mod-lt c h)

-- The fuel of `excess_digits` is enough: the digits that are kept are within the precision.
excess_digits-enough : (f c : ℕ) → c ≤ f → c / 10 ^ excess_digits f c < precision_bound
unfolding excess_digits
excess_digits-enough zero c h = omega arith
excess_digits-enough (suc f) c h = elim (Bool-cases (ltb c precision_bound)) [
  | inl within ↦ rw within (ground arith)
  | inr beyond ↦
      rw (beyond, pow-succ', ← div-div-eq-div-mul) (excess_digits-enough f (c / 10) (ground arith))
]

ten_pow_pos : (k : ℕ) → 0 < 10 ^ k
ten_pow_pos zero = omega arith
ten_pow_pos (suc k) = rw pow-succ' (omega (arith, ten_pow_pos k))

whole_cap : (c k : ℕ) → k ≡ 0 → c / 10 ^ k < precision_bound → c ≤ 10 ^ k * precision_bound
whole_cap c zero e h = omega arith
whole_cap c (suc k) e h = absurd (omega arith)

half_even_cap : (c u b : ℕ) → c / u < b → half_even c u ≤ u * b
half_even_cap c u b h =
    ground (arith, mul-le-mul_right {m = c / u + 1} {n = b} u (omega arith), mul_comm u b)

-- Rounding moves a coefficient by at most half of the power of ten that it drops, and what is
-- kept has at most 28 digits (or is the next power of ten).
pub round_context_error :
    (c : ℕ)
    → let u = 10 ^ excess_digits c c in
      (2 * round_context c ≤ 2 * c + u)
      × (2 * c ≤ 2 * round_context c + u)
      × (round_context c ≤ u * precision_bound)
unfolding round_context
round_context_error c = elim (Bool-cases (nat_beq (excess_digits c c) 0)) [
  | inl whole ↦
      let none_dropped : excess_digits c c ≡ 0 = (nat_beq_iff _ _).0 whole in
      let small : c / 10 ^ excess_digits c c < precision_bound =
        excess_digits-enough c c (omega arith) in
      rw (whole) ((omega arith, omega arith, whole_cap c _ none_dropped small))
  | inr dropped ↦ rw dropped (
    (half_even_error c (10 ^ excess_digits c c) (ten_pow_pos _)).0,
    (half_even_error c (10 ^ excess_digits c c) (ten_pow_pos _)).1,
    half_even_cap c (10 ^ excess_digits c c) precision_bound
        (excess_digits-enough c c (omega arith)),
  )
]

-- The totals of a cost row in the units of its rate, and of a ceiling in the same units.
pub greater-multiply :
    (a b : ℕ) (x : Decimal)
    → a * x.coefficient < precision_bound
    → greater (multiply (of_int a) x) (of_int b) ≡ ltb (b * 10 ^ x.scale) (a * x.coefficient)
unfolding greater multiply
greater-multiply a b x h =
    let unit : round_context (a * x.coefficient) * 1 ≡ a * x.coefficient =
      omega (arith, round_context-exact (a * x.coefficient) h) in
    rw (unit, zero-add)

pub elastic_exact :
    (p bps : ℕ)
    → p * (10000 + bps) < precision_bound
    → 10000 + bps < precision_bound
    → multiply (of_int p) (add (of_int 1) (divide_ten_thousand (of_int bps)))
      ≡ record { coefficient = p * (10000 + bps); scale = 4 }
unfolding multiply add divide_ten_thousand
elastic_exact p bps h k =
    let inner : 10000 + round_context bps * 1 ≡ 10000 + bps =
      omega (arith, round_context-exact bps (omega arith)) in
    rw (inner, round_context-exact (10000 + bps) k, round_context-exact (p * (10000 + bps)) h)
