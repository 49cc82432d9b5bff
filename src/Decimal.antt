-- ===== src/Decimal.antt =====
-- `decimal.Decimal` for values that are not negative, in the default context: a coefficient over a
-- power of ten, with products and sums rounded half-even to 28 significant digits. The exponent
-- limits of the context (a million digits) are not modelled.
pub mod Exact
use night_voyager.Base.{
  ltb, nat_beq, if◌then◌else◌, nat_eq, string_eq, option_eq, list_eq, ℕ, zero, suc, ◌+◌, ◌*◌, ◌/◌,
  ◌%◌, ◌^◌, Bool, ◌&&◌, ◌||◌,
}

-- coefficient / 10 ^ scale
pub record Decimal : Type 0 where
  pub coefficient : ℕ
  pub scale : ℕ

abbrev pub precision_bound : ℕ
precision_bound = 10_000_000_000_000_000_000_000_000_000

-- How many digits a coefficient has beyond the 28 that are kept; the coefficient itself is fuel
-- enough.
pub excess_digits : ℕ → ℕ → ℕ
excess_digits zero c = 0
excess_digits (suc f) c =
    let rest = suc (excess_digits f (c / 10)) in if ltb c precision_bound then 0 else rest

-- A coefficient rounded half-even to a multiple of `unit`.
abbrev pub half_even : ℕ → ℕ → ℕ
half_even c unit =
    let q = c / unit in
    let r = c % unit in
    if ltb unit (2 * r) || (nat_beq unit (2 * r) && nat_beq (q % 2) 1)
    then (q + 1) * unit
    else q * unit

unfoldable pub round_context : ℕ → ℕ
unfolding excess_digits
round_context c = let k = excess_digits c c in if nat_beq k 0 then c else half_even c (10 ^ k)

-- `Decimal(n)` of an int is exact.
abbrev pub of_int : ℕ → Decimal
of_int n = record { coefficient = n; scale = 0 }

unfoldable pub multiply : Decimal → Decimal → Decimal
multiply a b = record {
  coefficient = round_context (a.coefficient * b.coefficient);
  scale = a.scale + b.scale;
}

unfoldable pub add : Decimal → Decimal → Decimal
add a b = record {
  coefficient = round_context (a.coefficient * 10 ^ b.scale + b.coefficient * 10 ^ a.scale);
  scale = a.scale + b.scale;
}

-- `a / Decimal(10000)`, exact where the coefficient of `a` is within the precision.
unfoldable pub divide_ten_thousand : Decimal → Decimal
divide_ten_thousand a = record { coefficient = round_context a.coefficient; scale = a.scale + 4 }

-- `a > b` compares the exact values.
unfoldable pub greater : Decimal → Decimal → Bool
greater a b = ltb (b.coefficient * 10 ^ a.scale) (a.coefficient * 10 ^ b.scale)
